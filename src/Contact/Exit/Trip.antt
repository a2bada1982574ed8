-- ===== src/Contact/Exit/Trip.antt =====
-- A list of exits is read back as it was written.
use uplexa_network.Prelude.{
  ℕ, ◌≡◌, refl, ap, subst, ◌∙◌, false, List, [], ◌∷◌, ◌++◌, Option, none, length, length-append,
  append_assoc, append-nil, arith, All, map, concat,
}
use uplexa_network.Buffer.{Buffer, Io, ok, advance}
use uplexa_network.Buffer.Read.{Reads}
use uplexa_network.Buffer.Write.{Appends, Appends-seq}
use uplexa_network.Bencode.Wire.{
  int_text, string_text, write_bytestring-Appends, start_dict-Appends, end-Appends,
}
use uplexa_network.Bencode.Fields.{write_key-Appends, decode_aligned-Reads, write_version-Appends}
use uplexa_network.Bencode.Items.{Items, item, read_list-Items}
use uplexa_network.Bencode.Dict.{
  key_text, eq_letter, Takes, Entries, done, entry, read_dict-Entries,
}
use uplexa_network.Contact.{Inet, Prints}
use uplexa_network.Contact.Exit.{
  ExitInfo, blank_exit, decode_exit_key, decode_exit, encode_exit, read_exit, decode_exits,
  encode_exits,
}
use uplexa_network.Contact.Lists.{
  list_text, encode_list-Appends, ip_text, read_version-Reads, read_ip-Reads, write_ip-Appends,
}

-- An exit that the code can write and read.
pub record IsExit (inet : Inet) (xi : ExitInfo) : Type 0 where
  pub address_prints : Prints inet xi.address
  pub netmask_prints : Prints inet xi.netmask
  pub key_size : length xi.pubkey ≡ 32

module _ (inet : Inet) where
  abbrev exit_entries : ExitInfo → List ℕ
  exit_entries xi =
      key_text b'a'
      ++ (string_text (ip_text inet xi.address)
          ++ (key_text b'b'
              ++ (string_text (ip_text inet xi.netmask)
                  ++ (key_text b'k'
                      ++ (string_text xi.pubkey ++ (key_text b'v' ++ (int_text 0 ++ [])))))))

  abbrev pub exit_text : ExitInfo → List ℕ
  exit_text xi = b'd' ∷ (exit_entries xi ++ (b'e' ∷ []))

  encode_exit-Appends :
      (xi : ExitInfo) → IsExit inet xi → Appends (encode_exit inet xi) (exit_text xi)
  unfolding encode_exit
  encode_exit-Appends xi good =
      subst (Appends (encode_exit inet xi)) (simp (append_assoc, append-nil)) (
        Appends-seq start_dict-Appends (
          Appends-seq (write_ip-Appends inet b'a' xi.address good.address_prints) (
            Appends-seq (write_ip-Appends inet b'b' xi.netmask good.netmask_prints) (
              Appends-seq (write_key-Appends b'k') (
                Appends-seq (write_bytestring-Appends xi.pubkey)
                  (Appends-seq write_version-Appends end-Appends))))))

  abbrev callback : Option Buffer → ExitInfo → Io ExitInfo
  callback = decode_exit_key inet

  Takes-address :
      (xi : ExitInfo) (ip : List ℕ)
      → Prints inet ip
      → Takes callback b'a' (string_text (ip_text inet ip)) xi (record xi { address = ip })
  unfolding decode_exit_key
  Takes-address xi ip h key b letter v there fits =
      rw (eq_letter b'a' b'a' key letter) (rw (read_ip-Reads inet ip h b v there fits))

  Takes-netmask :
      (xi : ExitInfo) (ip : List ℕ)
      → Prints inet ip
      → Takes callback b'b' (string_text (ip_text inet ip)) xi (record xi { netmask = ip })
  unfolding decode_exit_key
  Takes-netmask xi ip h key b letter v there fits =
      rw (eq_letter b'b' b'a' key letter, eq_letter b'b' b'b' key letter)
        (rw (read_ip-Reads inet ip h b v there fits))

  Takes-pubkey :
      (xi : ExitInfo) (k : List ℕ)
      → length k ≡ 32
      → Takes callback b'k' (string_text k) xi (record xi { pubkey = k })
  unfolding decode_exit_key
  Takes-pubkey xi k h key b letter v there fits =
      rw
        (
          eq_letter b'k' b'a' key letter,
          eq_letter b'k' b'b' key letter,
          eq_letter b'k' b'k' key letter,
        )
        (rw (decode_aligned-Reads k 32 h (omega arith) b v there fits))

  Takes-version : (xi : ExitInfo) → Takes callback b'v' (int_text 0) xi xi
  unfolding decode_exit_key
  Takes-version xi key b letter v there fits =
      rw
        (
          eq_letter b'v' b'a' key letter,
          eq_letter b'v' b'b' key letter,
          eq_letter b'v' b'k' key letter,
          eq_letter b'v' b'v' key letter,
        )
        (rw (read_version-Reads b v there fits))

  exit_Entries : (old xi : ExitInfo) → IsExit inet xi → Entries callback old (exit_entries xi) xi
  exit_Entries old xi good =
      entry b'a' (string_text (ip_text inet xi.address))
        (Takes-address old xi.address good.address_prints)
        (entry b'b' (string_text (ip_text inet xi.netmask))
          (Takes-netmask _ xi.netmask good.netmask_prints)
          (entry b'k' (string_text xi.pubkey) (Takes-pubkey _ xi.pubkey good.key_size)
            (entry b'v' (int_text 0) (Takes-version _) done)))

  decode_exit_end : (xi : ExitInfo) (b : Buffer) → callback none xi b ≡ (ok xi, b)
  unfolding decode_exit_key
  decode_exit_end xi b = refl

  decode_exit-Reads :
      (old xi : ExitInfo) → IsExit inet xi → Reads (decode_exit inet old) (exit_text xi) xi
  unfolding decode_exit
  decode_exit-Reads old xi good b v there fits =
      let size = length-append (exit_entries xi) (b'e' ∷ []) in
      read_dict-Entries callback (exit_Entries old xi good) b v there (omega (arith, size))
        (decode_exit_end xi)
      ∙ ap (λ n. (ok xi, advance n b)) (omega (arith, size))

  exits_Items :
      (l have : List ExitInfo)
      → All (IsExit inet) l
      → Items (read_exit inet) have (concat (map exit_text l)) (have ++ l)
  unfolding read_exit
  exits_Items [] have all = rw append-nil Items.done
  exits_Items (xi ∷ l) have all =
      item (exit_text xi) (omega arith)
        (λ b v there fits. rw (decode_exit-Reads blank_exit xi all.0 b v there fits))
        (subst (Items (read_exit inet) _ _) (append_assoc have (xi ∷ []) l)
          (exits_Items l (have ++ (xi ∷ [])) all.1))

  read_exit_end : (l : List ExitInfo) (b : Buffer) → read_exit inet false l b ≡ (ok l, b)
  unfolding read_exit
  read_exit_end l b = refl

  unfoldable pub exits_text : List ExitInfo → List ℕ
  exits_text l = list_text (map exit_text l)

  pub decode_exits-Reads :
      (l : List ExitInfo) → All (IsExit inet) l → Reads (decode_exits inet []) (exits_text l) l
  unfolding decode_exits exits_text
  decode_exits-Reads l all b v there fits =
      let size = length-append (concat (map exit_text l)) (b'e' ∷ []) in
      read_list-Items (read_exit inet) (exits_Items l [] all) b v there (omega (arith, size))
        (read_exit_end l)
      ∙ ap (λ n. (ok l, advance n b)) (omega (arith, size))

  encode-All :
      (l : List ExitInfo)
      → All (IsExit inet) l
      → All (λ xi. Appends (encode_exit inet xi) (exit_text xi)) l
  encode-All [] all = tt
  encode-All (xi ∷ l) all = (encode_exit-Appends xi all.0, encode-All l all.1)

  pub encode_exits-Appends :
      (l : List ExitInfo) → All (IsExit inet) l → Appends (encode_exits inet l) (exits_text l)
  unfolding encode_exits exits_text
  encode_exits-Appends l all = encode_list-Appends (encode_exit inet) exit_text l (encode-All l all)
