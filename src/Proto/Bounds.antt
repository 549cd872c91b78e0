-- ===== src/Proto/Bounds.antt =====
-- How much of a stream `Decode` takes.
use tailsync.Common.{
  take, drop, length-take, length-drop, zero, suc, ℕ, ◌+◌, ◌-◌, ◌^◌, ◌≤◌, ◌<◌, ◌≡◌, ◌⊎◌, inl, inr,
  refl, ap, ◌||◌, List, [], ◌∷◌, ltb, nat_eqb, length, arith, ℤ, pos, negsuc, Bool-cases,
  Option-cases,
}
use tailsync.Delta.Wire.{Decoded, WireError, ok, err, get_le, read_full}
use tailsync.Proto.{
  Header, Message, HeaderCodec, received, max_message_size, decode_payload, decode_header, decode,
}

Decoded-cases {ℓ} :
    {A : Type ℓ} (r : Decoded A) → ((a : A) × (r ≡ ok a)) ⊎ ((x : WireError) × (r ≡ err x))
Decoded-cases (ok a) = inl (a, refl)
Decoded-cases (err x) = inr (x, refl)

ℤ-cases : (i : ℤ) → ((p : ℕ) × (i ≡ pos p)) ⊎ ((k : ℕ) × (i ≡ negsuc k))
ℤ-cases (pos p) = inl (p, refl)
ℤ-cases (negsuc k) = inr (k, refl)

get_le-length : (k : ℕ) (bs r : List ℕ) (v : ℕ) → get_le k bs ≡ ok (v, r) → length bs ≡ k + length r
unfolding get_le
get_le-length zero bs r v e = ground (arith, e)
get_le-length (suc k) [] r v e = absurd (ground (arith, e))
get_le-length (suc k) (b ∷ bs) r v e = elim (Decoded-cases (get_le k bs)) [
  | inl ((u, r'), got) ↦
      let same : r' ≡ r = ground (arith, got, e) in
      omega (arith, get_le-length k bs r' u got, ap length same)
  | inr (x, bad) ↦ absurd (ground (arith, bad, e))
]

read_full-length :
    (n : ℕ) (r a r' : List ℕ)
    → read_full n r ≡ ok (a, r')
    → (length a ≡ n) × (length r ≡ n + length r')
unfolding read_full
read_full-length n r a r' e = elim (Bool-cases (ltb (length r) n)) [
  | inl short ↦ absurd (ground (arith, short, e))
  | inr enough ↦
      let same : take n r ≡ a = ground (arith, enough, e) in
      let same' : drop n r ≡ r' = ground (arith, enough, e) in
      ground (arith, enough, ap length same, ap length same', length-take n r, length-drop n r)
]

module _ (codec : HeaderCodec) (max_alloc : ℕ) where
  decode_payload_bounds :
      (n : ℕ) (h : Header) (r rest : List ℕ) (m : Message)
      → decode_payload codec max_alloc n h r ≡ received m rest
      → length r < 2 ^ 62
      → n < 2 ^ 61
      → (length r ≡ length m.payload + length rest)
        × ((4 + n + length m.payload ≤ max_message_size) ⊎ (m.payload ≡ []))
  unfolding decode_payload
  decode_payload_bounds n h r rest m e finite small = elim (ℤ-cases h.payload_len) [
    | inr (k, bad) ↦ absurd (ground (arith, bad, e))
    | inl (p, len) ↦ elim (Bool-cases (nat_eqb p 0)) [
      | inl none_sent ↦
          let same : r ≡ rest = ground (arith, len, none_sent, e) in
          let empty : m.payload ≡ [] = ground (arith, len, none_sent, e) in
          (omega (arith, ap length same, ap length empty), inr empty)
      | inr some_sent ↦ elim (Decoded-cases (read_full p r)) [
        | inr (x, bad) ↦ absurd (ground (arith, len, some_sent, bad, e))
        | inl ((a, r'), got) ↦
            let (taken, left) = read_full-length p r a r' got in
            let same : a ≡ m.payload = ground (arith, len, some_sent, got, e) in
            let same' : r' ≡ rest = ground (arith, len, some_sent, got, e) in
            let fits : 4 + n + p ≤ max_message_size =
              ground (arith, len, some_sent, got, e, taken, left) in
            (
              omega (arith, taken, left, ap length same, ap length same'),
              inl (omega (arith, fits, taken, ap length same)),
            )
      ]
    ]
  ]

  decode_header_bounds :
      (n : ℕ) (r rest : List ℕ) (m : Message)
      → decode_header codec max_alloc n r ≡ received m rest
      → length r < 2 ^ 62
      → (length rest < length r)
        × (length r + 4 ≤ length rest + max_message_size)
        × (length m.payload ≤ max_message_size)
  unfolding decode_header
  decode_header_bounds n r rest m e finite =
      elim (Bool-cases (nat_eqb n 0 || ltb (max_message_size - 4) n)) [
        | inl bad ↦ absurd (ground (arith, bad, e))
        | inr good ↦ elim (Decoded-cases (read_full n r)) [
          | inr (x, bad) ↦ absurd (ground (arith, good, bad, e))
          | inl ((hb, r'), got) ↦ elim (Option-cases (codec.unmarshal hb)) [
            | inl bad ↦ absurd (ground (arith, good, got, bad, e))
            | inr (h, parsed) ↦
                let (taken, left) = read_full-length n r hb r' got in
                let wide : 0 < n = ground (arith, good) in
                let narrow : n ≤ max_message_size - 4 = ground (arith, good) in
                let inner : decode_payload codec max_alloc n h r' ≡ received m rest =
                  ground (arith, good, got, parsed, e) in
                let (all, fits) =
                  decode_payload_bounds n h r' rest m inner (omega (arith, left))
                    (omega (arith, narrow)) in
                elim fits [
                  | inl f ↦ (
                    omega (arith, all, left, wide),
                    omega (arith, all, left, f),
                    omega (arith, f),
                  )
                  | inr none_sent ↦ (
                    omega (arith, all, left, wide),
                    omega (arith, all, left, narrow, ap length none_sent),
                    omega (arith, ap length none_sent),
                  )
                ]
          ]
        ]
      ]

  -- Whatever the stream holds, a message that `Decode` accepts takes at least five bytes from it and
  -- at most 64 MiB, its payload included, and the rest is left for the next.
  pub decode-bounds :
      (bytes rest : List ℕ) (m : Message)
      → decode codec max_alloc bytes ≡ received m rest
      → length bytes < 2 ^ 62
      → (length rest + 5 ≤ length bytes)
        × (length bytes ≤ length rest + max_message_size)
        × (length m.payload ≤ max_message_size)
  unfolding decode get_le
  decode-bounds [] rest m e finite = absurd (ground (arith, e))
  decode-bounds (b ∷ bs) rest m e finite = elim (Decoded-cases (get_le 4 (b ∷ bs))) [
    | inr (x, bad) ↦ absurd (ground (arith, bad, e))
    | inl ((n, r), got) ↦
        let taken = get_le-length 4 (b ∷ bs) r n got in
        let inner : decode_header codec max_alloc n r ≡ received m rest = ground (arith, got, e) in
        let (less, most, load) =
          decode_header_bounds n r rest m inner (omega (arith, taken, finite)) in
        (omega (arith, taken, less), omega (arith, taken, most), load)
  ]
