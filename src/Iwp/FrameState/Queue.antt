-- ===== src/Iwp/FrameState/Queue.antt =====
-- The queue of frames of frame_state that the session sends from.
use uplexa_network.Prelude.{ℕ, List, [], ◌∷◌, Option, none, some}
use uplexa_network.Iwp.FrameState.{FrameState}

-- next_frame: the frame that is sent next.
unfoldable next_frame : FrameState → Option (List ℕ)
next_frame st = elim st.sendqueue [ [] ↦ none | frame ∷ _ ↦ some frame ]

-- pop_next_frame, which the session calls behind `next_frame` only.
unfoldable pub pop_next_frame : FrameState → FrameState
pop_next_frame st = record st { sendqueue = elim st.sendqueue [ [] ↦ [] | _ ∷ frames ↦ frames ] }

-- clear: the messages are forgotten, the frames in the queue are not.
unfoldable clear : FrameState → FrameState
clear st = record st { rx = []; tx = [] }
