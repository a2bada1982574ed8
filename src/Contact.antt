-- ===== src/Contact.antt =====
-- What the codecs of router contacts share: udap/router_contact.cpp, udap/address_info.cpp and
-- udap/exit_info.cpp. The C library's inet_pton and inet_ntop for AF_INET6 are a parameter.
pub mod Address
pub mod Exit
pub mod Router
pub mod Lists
pub mod Ends
use uplexa_network.Prelude.{
  ℕ, ◌≡◌, ◌<◌, List, [], ◌∷◌, Option, none, some, leb, ◌==◌, if◌then◌else◌, length, Lacks,
}
use uplexa_network.Buffer.{Io, ok, failed, stuck, and_then, load_all, ◌>>=◌, ◌>>◌}
use uplexa_network.Bencode.{read_string, start_list, end}

-- From text to the 16 bytes of an address, or nothing where the text is none; and back.
pub record Inet : Type 0 where
  pub pton : List ℕ → Option (List ℕ)
  pub ntop : List ℕ → Option (List ℕ)

-- What the two promise of an address: its text is short, has no NUL in it, and stands for it.
pub record Prints (inet : Inet) (ip : List ℕ) : Type 0 where
  pub text : List ℕ
  pub printed : inet.ntop ip ≡ some text
  pub parsed : inet.pton text ≡ some ip
  pub short : length text < 46
  pub plain : Lacks 0 text

-- The characters of an array before its first NUL, all of them where there is none.
unfoldable pub c_string : List ℕ → List ℕ
c_string [] = []
c_string (c ∷ cs) = if c == 0 then [] else c ∷ c_string cs

-- The text of an address goes by an array of 128 characters, which is filled with NUL before.
unfoldable pub read_ip : Inet → Io (List ℕ)
read_ip inet b = and_then (read_string b) (λ s c.
    if leb 128 s.sz
    then (failed, c)
    else (elim (inet.pton (c_string (load_all s.mem s.base s.sz))) [
      | none ↦ (failed, c)
      | some ip ↦ (ok ip, c)
    ]))

-- The iteration over a list with a visitor that writes: it ends where a visit fails, and what the
-- visits returned is not looked at.
unfoldable pub visit_items : List (Io (Unit {0})) → Io (Unit {0})
visit_items [] b = (ok tt, b)
visit_items (f ∷ fs) b =
    let r = f b in
    elim (r.0) [ ok _ ↦ visit_items fs r.1 | failed ↦ (ok tt, r.1) | stuck ↦ (stuck, r.1) ]

-- udap_ai_list_bencode and udap_xi_list_bencode, with the encoders of the items.
unfoldable pub encode_list : List (Io (Unit {0})) → Io (Unit {0})
encode_list fs = do start_list; visit_items fs; end
