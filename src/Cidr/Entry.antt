-- ===== src/Cidr/Entry.antt =====
-- Which peers a list of entries allows.
use erikslund_http_embedded.Prelude.{
  ℕ, ◌≡◌, subst, ◌⊎◌, inl, inr, true, false, ◌||◌, Option, some, List, [], ◌∷◌, ◌++◌, arith, leb,
  Bool-cases, Option-cases, Bytes, is_empty, contains_byte, cut, length, replicate, All, ok, ◌%◌,
  ◌^◌, ◌≤◌, ◌<◌, sym, ◌∙◌, ◌↔◌, Bool, none, lt→ltb, if_true, Result-cases, refl, ap, if_false, Some,
}
use erikslund_http_embedded.Cidr.Network.{IsAddress, SameBits, IsByte, address_bit, matches_iff}
use erikslund_http_embedded.Cidr.{
  ParsedAddress, mapped_marker, parse_address, prefix_of, Rule, clear_host_bits, parse_entry,
  parse_prefix, rule_of, text_or_empty, matches, parse_rules, some_match, allows,
}
use erikslund_http_embedded.Request.Authority.{inet6_address_capacity}
use erikslund_http_embedded.Cidr.Clear.{clear_host_bits-IsAddress, clear_host_bits_lem}
use erikslund_http_embedded.Peer.{PeerAddress}

module _ (inet_pton_v4 inet_pton_v6 : Bytes → Option Bytes) where
  -- What a written entry names: an address, and how many of its bits count.
  pub record Written (entry : Bytes) (bytes : Bytes) (bits : ℕ) : Type 0 where
    pub address : ParsedAddress
    pub parsed : parse_address inet_pton_v4 inet_pton_v6 (cut b'/' entry).0 ≡ some address
    pub prefixed : prefix_of (cut b'/' entry).1 address.from_dotted_quad ≡ ok bits
    pub is_of : bytes ≡ address.bytes

  -- The peer agrees with what an entry names, in the bits that count.
  abbrev pub Holds : Bytes → Bytes → Type 0
  Holds peer entry =
      (bytes : Bytes) × (bits : ℕ) × Written entry bytes bits × SameBits bits peer bytes

  module _
      (v4 : (text address : Bytes)
        → inet_pton_v4 text ≡ some address
        → (length address ≡ 4) × All IsByte address)
      (v6 : (text address : Bytes)
        → inet_pton_v6 text ≡ some address
        → (length address ≡ 16) × All IsByte address) where
    parse_address-IsAddress :
        (text : Bytes) (a : ParsedAddress)
        → parse_address inet_pton_v4 inet_pton_v6 text ≡ some a
        → IsAddress a.bytes
    unfolding parse_address
    parse_address-IsAddress text a h =
        elim (Bool-cases
          (is_empty text || leb inet6_address_capacity (length text) || contains_byte text 0)) [
            | inl e ↦ absurd (ground arith)
            | inr e ↦ elim (Option-cases (inet_pton_v4 text)) [
              | inr (q, f) ↦
                  let (four, small) = v4 text q f in
                  let same : record {
                    bytes = replicate 10 0 ++ (mapped_marker ++ q);
                    from_dotted_quad = true;
                  }
                      ≡ a =
                    ground arith in
                  subst (λ (z : ParsedAddress). IsAddress z.bytes) same
                    (record { sixteen = omega (arith, four); small = ground (arith, small) })
              | inl f ↦ elim (Option-cases (inet_pton_v6 text)) [
                | inl g ↦ absurd (ground arith)
                | inr (q, g) ↦
                    let (sixteen, small) = v6 text q g in
                    let same : record { bytes = q; from_dotted_quad = false } ≡ a = ground arith in
                    subst (λ (z : ParsedAddress). IsAddress z.bytes) same
                      (record { sixteen = sixteen; small = small })
              ]
            ]
          ]

    Written-IsAddress :
        (entry bytes : Bytes) (bits : ℕ) → Written entry bytes bits → IsAddress bytes
    Written-IsAddress entry bytes bits d =
        subst IsAddress (sym d.is_of)
          (parse_address-IsAddress (cut b'/' entry).0 d.address d.parsed)

    prefix_of-le :
        (text : Option Bytes) (dotted : Bool) (n : ℕ) → prefix_of text dotted ≡ ok n → n ≤ 128
    unfolding prefix_of parse_prefix
    prefix_of-le none dotted n h = ground arith
    prefix_of-le (some text) dotted n h = ground arith

    -- A rule that is parsed is that of the address that the entry denotes.
    parse_entry-Written :
        (entry : Bytes) (rule : Rule)
        → parse_entry inet_pton_v4 inet_pton_v6 entry ≡ ok rule
        → (address : ParsedAddress) × (bits : ℕ) × (parse_address inet_pton_v4 inet_pton_v6
              (cut b'/' entry).0
            ≡ some address)
          × (prefix_of (cut b'/' entry).1 address.from_dotted_quad ≡ ok bits)
          × (rule_of address bits ≡ rule)
    unfolding parse_entry
    parse_entry-Written entry rule h =
        let parts = cut b'/' entry in
        elim (Bool-cases (is_empty entry)) [
          | inl e ↦ absurd (ground arith)
          | inr e ↦
              elim (Bool-cases (is_empty parts.0 || contains_byte (text_or_empty parts.1) b'/')) [
                | inl f ↦ absurd (ground arith)
                | inr f ↦ elim (Option-cases (parse_address inet_pton_v4 inet_pton_v6 parts.0)) [
                  | inl g ↦ absurd (ground arith)
                  | inr (address, g) ↦
                      elim (Result-cases (prefix_of parts.1 address.from_dotted_quad)) [
                        | inr (x, k) ↦ absurd (ground arith)
                        | inl (bits, k) ↦ (address, bits, g, k, ground arith)
                      ]
                ]
              ]
        ]

    matches-rule_of :
        (address : ParsedAddress) (bits : ℕ) (peer : Bytes)
        → IsAddress address.bytes
        → IsAddress peer
        → bits ≤ 128
        → (matches (rule_of address bits) peer ≡ true) ↔ SameBits bits peer address.bytes
    unfolding rule_of
    matches-rule_of address bits peer a v h =
        let small : bits % 2 ^ 8 ≡ bits = omega arith in
        let iff =
          matches_iff (rule_of address bits) peer (omega arith)
            (clear_host_bits-IsAddress address.bytes bits a) v in
        let kept : (i : ℕ)
            → i < bits
            → address_bit (clear_host_bits address.bytes bits) i ≡ address_bit address.bytes i =
          λ i hi.
            clear_host_bits_lem address.bytes bits i a.sixteen a.small h
            ∙ if_true _ _ (lt→ltb i bits hi) in
        (
          λ e i hi. iff.0 e i (omega arith) ∙ kept i hi,
          λ f. iff.1 (λ i hi. f i (omega arith) ∙ sym (kept i (omega arith))),
        )

    -- A parsed rule matches the peers that agree with what the entry denotes.
    parse_entry-matches :
        (entry : Bytes) (rule : Rule) (peer : Bytes)
        → parse_entry inet_pton_v4 inet_pton_v6 entry ≡ ok rule
        → IsAddress peer
        → (matches rule peer ≡ true) ↔ Holds peer entry
    parse_entry-matches entry rule peer h v =
        let (address, bits, parsed, prefixed, same) = parse_entry-Written entry rule h in
        let a = parse_address-IsAddress (cut b'/' entry).0 address parsed in
        let limit = prefix_of-le (cut b'/' entry).1 address.from_dotted_quad bits prefixed in
        let iff =
          subst (λ r. (matches r peer ≡ true) ↔ SameBits bits peer address.bytes) same
            (matches-rule_of address bits peer a v limit) in
        (
          λ e. (
            address.bytes,
            bits,
            record { address = address; parsed = parsed; prefixed = prefixed; is_of = refl },
            iff.0 e,
          ),
          λ (bytes, n, w, f). iff.1 (moved entry address bits bytes n peer parsed prefixed w f),
        )
      where
        moved :
            (entry : Bytes) (address : ParsedAddress) (bits : ℕ) (bytes : Bytes) (n : ℕ)
            (peer : Bytes)
            → parse_address inet_pton_v4 inet_pton_v6 (cut b'/' entry).0 ≡ some address
            → prefix_of (cut b'/' entry).1 address.from_dotted_quad ≡ ok bits
            → Written entry bytes n
            → SameBits n peer bytes
            → SameBits bits peer address.bytes
        moved entry address bits bytes n peer parsed prefixed w f =
            let same : w.address ≡ address = ground (arith, w.parsed, parsed) in
            let text : bytes ≡ address.bytes = w.is_of ∙ ap (λ (z : ParsedAddress). z.bytes) same in
            let count : n ≡ bits = ground (
              arith,
              prefixed,
              subst (λ (z : ParsedAddress). prefix_of (cut b'/' entry).1 z.from_dotted_quad ≡ ok n)
                  same w.prefixed,
            ) in
            subst (λ z. SameBits bits peer z) text (subst (λ z. SameBits z peer bytes) count f)

    parse_rules-some_match :
        (entries : List Bytes) (rules : List Rule) (peer : Bytes)
        → parse_rules inet_pton_v4 inet_pton_v6 entries ≡ ok rules
        → IsAddress peer
        → (some_match rules peer ≡ true) ↔ Some (Holds peer) entries
    unfolding parse_rules some_match
    parse_rules-some_match [] rules peer h v =
        let empty : [] ≡ rules = ground arith in
        subst (λ r. (some_match r peer ≡ true) ↔ ⊥) empty
          (λ e. absurd (ground arith), λ e. absurd e)
    parse_rules-some_match (entry ∷ entries) rules peer h v =
        elim (Result-cases (parse_entry inet_pton_v4 inet_pton_v6 entry)) [
          | inr (x, e) ↦ absurd (ground arith)
          | inl (rule, e) ↦ elim (Result-cases (parse_rules inet_pton_v4 inet_pton_v6 entries)) [
            | inr (x, f) ↦ absurd (ground arith)
            | inl (more, f) ↦
                let whole : rule ∷ more ≡ rules = ground arith in
                let first = parse_entry-matches entry rule peer e v in
                let ih = parse_rules-some_match entries more peer f v in
                subst
                  (λ r. (some_match r peer ≡ true) ↔ (Holds peer entry ⊎ Some (Holds peer) entries))
                  whole
                  (elim (Bool-cases (matches rule peer)) [
                    | inl m ↦ (λ k. inl (first.0 m), λ k. if_true _ _ m)
                    | inr m ↦ (
                      λ k. inr (ih.0 (sym (if_false _ _ m) ∙ k)),
                      λ k. elim k [
                        | inl now ↦ absurd (ground (arith, first.1 now))
                        | inr later ↦ if_false _ _ m ∙ ih.1 later
                      ],
                    )
                  ])
          ]
        ]

    parse_rules-is_empty :
        (entry : Bytes) (entries : List Bytes) (rules : List Rule)
        → parse_rules inet_pton_v4 inet_pton_v6 (entry ∷ entries) ≡ ok rules
        → is_empty rules ≡ false
    unfolding parse_rules
    parse_rules-is_empty entry entries rules h =
        elim (Result-cases (parse_entry inet_pton_v4 inet_pton_v6 entry)) [
          | inr (x, e) ↦ absurd (ground arith)
          | inl (rule, e) ↦ elim (Result-cases (parse_rules inet_pton_v4 inet_pton_v6 entries)) [
            | inr (x, f) ↦ absurd (ground arith)
            | inl (more, f) ↦
                let whole : rule ∷ more ≡ rules = ground arith in
                subst (λ r. is_empty r ≡ false) whole refl
          ]
        ]

    -- A list that was parsed allows a peer just if it is empty, the peer is a Unix one, or the peer's
    -- address agrees with the written address of some entry in as many bits as that entry's prefix
    -- says, those of an IPv4 address being counted behind the 96 of its mapped form.
    pub allows_iff :
        (entries : List Bytes) (rules : List Rule) (peer : PeerAddress)
        → parse_rules inet_pton_v4 inet_pton_v6 entries ≡ ok rules
        → IsAddress peer.bytes
        → (allows rules peer ≡ true)
          ↔ ((entries ≡ []) ⊎ ((peer.is_unix ≡ true) ⊎ Some (Holds peer.bytes) entries))
    unfolding allows
    allows_iff [] rules peer h v =
        let empty : [] ≡ rules = unfold parse_rules in ground arith in
        subst
          (λ r.
            (allows r peer ≡ true) ↔ ((◌≡◌ {A = List Bytes} [] []) ⊎ ((peer.is_unix ≡ true) ⊎ ⊥)))
          empty (λ e. inl refl, λ e. refl)
    allows_iff (entry ∷ entries) rules peer h v =
        let some_one = parse_rules-some_match (entry ∷ entries) rules peer.bytes h v in
        let listed : is_empty rules ≡ false = parse_rules-is_empty entry entries rules h in
        elim (Bool-cases peer.is_unix) [
          | inl u ↦ (λ e. inr (inl u), λ e. if_false _ _ listed ∙ if_true _ _ u)
          | inr u ↦
              let falls : allows rules peer ≡ some_match rules peer.bytes =
                if_false _ _ listed ∙ if_false _ _ u in
              (
                λ e. inr (inr (some_one.0 (sym falls ∙ e))),
                λ e. elim e [
                  | inl none_there ↦ absurd (ground arith)
                  | inr (inl unix) ↦ absurd (ground arith)
                  | inr (inr k) ↦ falls ∙ some_one.1 k
                ],
              )
        ]
