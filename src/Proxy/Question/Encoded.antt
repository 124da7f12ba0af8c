-- ===== src/Proxy/Question/Encoded.antt =====
-- A name that `build_query` encoded, read back by `_decode_name` behind any bytes.
use dns_server_lan_fixtures.Prelude.{
  ◌∙◌, sym, append_assoc, slice-append, lower, ◌≤◌, ◌*◌, ℕ, suc, ◌+◌, ◌<◌, ◌≡◌, refl, ap, true,
  List, [], ◌∷◌, ◌++◌, arith, Bytes, Text, length, All, length-append, get_or-append_head,
}
use dns_server_lan_fixtures.Outcome.{returned}
use dns_server_lan_fixtures.Proxy.Query.{is_ascii}
use dns_server_lan_fixtures.Proxy.Name.{decode_name, display}
use dns_server_lan_fixtures.Proxy.Query.Encoding.{wire_name, IsLabel}
use dns_server_lan_fixtures.Proxy.Name.Wire.{byte_at, NameAt, root, label, IsBytes}
use dns_server_lan_fixtures.Proxy.Name.Complete.{rounds, decode_name_complete}

wire_name_at :
    (ls : List Text) (m pre post : Bytes) (i e : ℕ)
    → m ≡ pre ++ (wire_name ls ++ post)
    → i ≡ length pre
    → e ≡ i + length (wire_name ls)
    → All IsLabel ls
    → (d : NameAt m i ls e) × (rounds d ≡ suc (length ls))
wire_name_at [] m pre post i e me ie ee v = (
  root (omega (arith, ap length me, length-append pre (0 ∷ post)))
      (rw (me, ie) (get_or-append_head pre post 0 0)) (omega arith),
  refl,
)
wire_name_at (l ∷ ls) m pre post i e me ie ee (h, v) =
    let b : byte_at m i ≡ length l =
      rw (me, ie) (get_or-append_head pre ((l ++ wire_name ls) ++ post) (length l) 0) in
    let rest = wire_name ls ++ post in
    let split : m ≡ pre ++ (length l ∷ (l ++ rest)) = me ∙ rw append_assoc in
    let (d, r) =
      wire_name_at ls m (pre ++ length l ∷ l) post (i + 1 + length l) e (split ∙ rw append_assoc)
        (omega (arith, length-append pre (length l ∷ l)))
        (omega (arith, length-append l (wire_name ls))) v in
    let fits : i + 1 + length l ≤ length m =
      omega (
        arith,
        ap length split,
        length-append pre (length l ∷ (l ++ rest)),
        length-append l rest,
      ) in
    (
      label (omega arith) (omega arith) (omega arith) fits
          (rw split (
            rw (← append_assoc pre (length l ∷ []) (l ++ rest)) (
              sym (
                slice-append (i + 1) (i + 1 + length l) (pre ++ length l ∷ []) l rest
                  (omega (arith, length-append pre (length l ∷ []))) refl))))
          d,
      ap suc r,
    )

-- Two bytes at least for each label, so the limit of 255 bytes leaves 127 labels.
length-le-wire_name : (ls : List Text) → All IsLabel ls → 2 * length ls < length (wire_name ls)
length-le-wire_name [] v = omega arith
length-le-wire_name (l ∷ ls) (h, v) =
    omega (arith, length-le-wire_name ls v, length-append l (wire_name ls))

AllAscii-IsLabel : (ls : List Text) → All IsLabel ls → All (λ l. is_ascii l ≡ true) ls
AllAscii-IsLabel [] v = tt
AllAscii-IsLabel (l ∷ ls) (h, v) = (h.ascii, AllAscii-IsLabel ls v)

-- The name is read back, in lower case, with the end behind it.
pub decode_name-wire_name :
    (m pre post : Bytes) (ls : List Text)
    → m ≡ pre ++ (wire_name ls ++ post)
    → IsBytes m
    → All IsLabel ls
    → length (wire_name ls) ≤ 255
    → decode_name m (length pre) ≡ returned (lower (display ls), length pre + length (wire_name ls))
decode_name-wire_name m pre post ls me bytes v short =
    let (d, r) = wire_name_at ls m pre post (length pre) _ me refl refl v in
    decode_name_complete m (length pre) d bytes (omega (arith, length-le-wire_name ls v))
      (AllAscii-IsLabel ls v)
