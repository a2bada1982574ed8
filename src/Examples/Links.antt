-- ===== src/Examples/Links.antt =====
-- Runs of udap/iwp_link.cpp.
use uplexa_network.Prelude.{
  zero, suc, inl, inr, ◌⊎◌, All, false, ℕ, ◌<◌, ◌≡◌, refl, true, false, ◌||◌, some, List, [], ◌∷◌,
  ◌++◌, arith, replicate,
}
use uplexa_network.Buffer.Memory.{Mem, store_all, store_all-Holds}
use uplexa_network.Iwp.Words.{word}
use uplexa_network.Iwp.Transit.{
  value, out_of_range, Transit, no_status, with_bit, find_frag, set_frag, put_loop, put_message,
  put_frag, inbound, put_lastfrag, completed, reassemble, get_bitmask, ack, xmit_bytes,
}
use uplexa_network.Iwp.Reassembly.{cut}
use uplexa_network.Iwp.Receive.{
  put_frags, Arrives, SentFrag, reassemble-put_message, reassemble_sound,
}
use uplexa_network.Iwp.FrameState.{
  FrameState, Session, init_sendbuf, frag_type, acks_type, generate_xmit, find_msg, take_xmit,
  process,
}
use uplexa_network.Iwp.FrameState.Frames.{process-generate_xmit}
use uplexa_network.Iwp.FrameState.Acks.{ack-get_bitmask}
use uplexa_network.Iwp.FrameState.Complete.{put_frag_throws}

abbrev hash : List ℕ
hash = replicate 32 5

abbrev message : List ℕ
message = 1 ∷ 2 ∷ 3 ∷ 4 ∷ 5 ∷ []

abbrev sent : Transit
sent = record {
  info = record { hash = hash; msgid = 3; fragsize = 2; lastsize = 1; numfrags = 2; flags = 1 };
  status = no_status;
  frags = (0, 1 ∷ 2 ∷ []) ∷ (1, 3 ∷ 4 ∷ []) ∷ [];
  lastfrag = 5 ∷ [];
}

put_message-sent : put_message message hash 3 2 ≡ some sent
unfolding put_message put_loop set_frag
put_message-sent = refl

-- The second fragment arrives first, and twice.
abbrev arrivals : List (ℕ × List ℕ)
arrivals = (1, 3 ∷ 4 ∷ []) ∷ (0, 1 ∷ 2 ∷ []) ∷ (1, 3 ∷ 4 ∷ []) ∷ []

all_arrive : (k : ℕ) → k < 2 → Arrives k arrivals
all_arrive zero h = inr (inl refl)
all_arrive (suc zero) h = inl refl
all_arrive (suc (suc k)) h = absurd (omega arith)

arrivals-SentFrag : All (SentFrag sent) arrivals
unfolding find_frag
arrivals-SentFrag = ((omega arith, refl), ((omega arith, refl), ((omega arith, refl), tt)))

reassemble-put_message_example :
    (r : Transit) × (put_frags arrivals (put_lastfrag (5 ∷ []) (inbound sent.info)) ≡ value r)
    × (completed r ≡ value true)
    × (reassemble r ≡ value (some message))
unfolding cut
reassemble-put_message_example =
    reassemble-put_message message hash 3 2 sent arrivals (omega arith) (omega arith) (omega arith)
      put_message-sent arrivals-SentFrag all_arrive

reassemble_sound_example :
    (r : Transit) × (put_frags ((1, 3 ∷ 4 ∷ []) ∷ []) (put_lastfrag (5 ∷ []) (inbound sent.info))
      ≡ value r)
    × ((completed r ≡ value false)
        ⊎ (completed r ≡ value true) × (reassemble r ≡ value (some message)))
unfolding cut
reassemble_sound_example =
    reassemble_sound message hash 3 2 sent ((1, 3 ∷ 4 ∷ []) ∷ []) (omega arith) (omega arith)
      (omega arith) put_message-sent (arrivals-SentFrag.0, tt)

abbrev received : Transit
received = record sent { status = with_bit no_status 1 }

ack-get_bitmask_example :
    (ack (get_bitmask received) sent).status 1 ≡ (received.status 1 || sent.status 1)
ack-get_bitmask_example = ack-get_bitmask sent received 1 (omega arith)

abbrev env : Session
env = record {
  shorthash = λ bytes. replicate 32 0;
  handle_message = λ msg. true;
  first_message = λ st. (true, st);
}

abbrev state : FrameState
state = record {
  rxflags = 0;
  txflags = 0;
  rx = (3, received) ∷ [];
  tx = (3, sent) ∷ [];
  sendqueue = [];
  delivered = [];
}

abbrev at_zero : List ℕ → Mem
at_zero bytes = store_all (λ _. 0) 0 bytes

state-rx : find_msg 3 state.rx ≡ some received
unfolding find_msg
state-rx = refl

state-tx : find_msg 3 state.tx ≡ some sent
unfolding find_msg
state-tx = refl

abbrev xmit_frame : List ℕ
xmit_frame = init_sendbuf 1 49 0 (xmit_bytes sent.info ++ (5 ∷ []))

generate_xmit-sent : generate_xmit sent 0 ≡ value xmit_frame
unfolding generate_xmit
generate_xmit-sent = refl

process-generate_xmit_example :
    process env (at_zero xmit_frame) 0 55 state ≡ take_xmit env sent.info (5 ∷ []) state
process-generate_xmit_example =
    process-generate_xmit env state (at_zero xmit_frame) 0 0 refl sent xmit_frame
      (record {
        hash_fits = refl;
        msgid_fits = omega arith;
        fragsize_fits = omega arith;
        lastsize_fits = omega arith;
        numfrags_fits = omega arith;
        flags_fits = omega arith;
      })
      refl refl generate_xmit-sent (store_all-Holds xmit_frame (λ _. 0) 0)

abbrev frag_frame : List ℕ
frag_frame = init_sendbuf frag_type 11 0 (word 8 3 ++ (0 ∷ 1 ∷ 2 ∷ []))

abbrev acks_frame : List ℕ
acks_frame = init_sendbuf acks_type 12 0 (word 8 3 ++ word 4 2)

put_frag_throws_example :
    put_frag 40 (1 ∷ []) (
      inbound
        (record { hash = hash; msgid = 3; fragsize = 1; lastsize = 0; numfrags = 64; flags = 1 }))
    ≡ out_of_range
put_frag_throws_example =
    put_frag_throws
      (record { hash = hash; msgid = 3; fragsize = 1; lastsize = 0; numfrags = 64; flags = 1 }) 40
      (1 ∷ []) (omega arith) (omega arith)
