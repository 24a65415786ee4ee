-- ===== src/Http/Capped.antt =====
-- What `read_capped` keeps of a body.
use pg_ask.Prelude.{
  ℕ, zero, suc, ◌+◌, ◌-◌, ◌≤◌, ◌==◌, ◌≡◌, refl, sym, ap, ◌∙◌, inl, inr, List, [], ◌∷◌, ◌++◌, ltb,
  length, take, length-append, Bool-cases, Text, arith,
}
use mathlib.Core.List.{append_assoc, append-nil}
use pg_ask.Http.{Read, chunk, broken, read_capped}

-- The bytes that arrive before the end or the first failure.
abbrev pub received : List Read → Text
received [] = []
received (broken ∷ reads) = []
received (chunk c ∷ reads) = c ++ received reads

take_short : (n m : ℕ) (s t : Text) → m + length s ≡ n → take n (s ++ t) ≡ s ++ take m t
take_short n m [] t h = ap (λ k. take k t) (omega (arith, h))
take_short zero m (c ∷ s) t h = absurd (omega (arith, h))
take_short (suc n) m (c ∷ s) t h = ap (λ r. c ∷ r) (take_short n m s t (omega (arith, h)))

take_all : (n : ℕ) (s : Text) → length s ≤ n → take n s ≡ s
take_all zero [] h = refl
take_all zero (c ∷ s) h = absurd (omega (arith, h))
take_all (suc n) [] h = refl
take_all (suc n) (c ∷ s) h = ap (λ r. c ∷ r) (take_all n s (omega (arith, h)))

take_none : (n : ℕ) → take {A = ℕ} n [] ≡ []
take_none zero = refl
take_none (suc n) = refl

take_long : (n : ℕ) (s t : Text) → n ≤ length s → take n (s ++ t) ≡ take n s
take_long zero s t h = refl
take_long (suc n) [] t h = absurd (omega (arith, h))
take_long (suc n) (c ∷ s) t h = ap (λ r. c ∷ r) (take_long n s t (omega (arith, h)))

nothing_more : (n : ℕ) (buf : Text) → buf ≡ buf ++ take n []
nothing_more n buf = sym (append-nil buf) ∙ ap (λ r. buf ++ r) (sym (take_none n))

read_capped_from :
    (max : ℕ) (buf : Text) (reads : List Read)
    → length buf ≤ max
    → read_capped max buf reads ≡ buf ++ take (max - length buf) (received reads)
unfolding read_capped
read_capped_from max buf [] h = nothing_more (max - length buf) buf
read_capped_from max buf (broken ∷ reads) h = nothing_more (max - length buf) buf
read_capped_from max buf (chunk c ∷ reads) h =
    let room = max - length buf in
    elim (Bool-cases (room == 0)) [
      | inl e ↦
          let z : room ≡ 0 = ground arith in
          rw e (sym (append-nil buf) ∙ ap (λ n. buf ++ take n (c ++ received reads)) (sym z))
      | inr e ↦ elim (Bool-cases (ltb room (length c))) [
        | inl l ↦
            let le : room ≤ length c = ground arith in
            rw (e, l) (ap (λ r. buf ++ r) (sym (take_long room c (received reads) le)))
        | inr l ↦
            let le : length c ≤ room = ground arith in
            let all = take_all room c le in
            let sum = length-append buf c in
            let left = max - length (buf ++ c) in
            rw (e, l)
              (ap (λ r. read_capped max (buf ++ r) reads) all
                ∙ read_capped_from max (buf ++ c) reads (omega (arith, sum, le, h))
                ∙ append_assoc buf c (take left (received reads))
                ∙ ap (λ r. buf ++ r)
                    (sym (take_short room left c (received reads) (omega (arith, sum, le, h)))))
      ]
    ]

-- What is kept of a body is the first bytes, at most as many as the cap, of those that arrived
-- before its end or the first failed read, however they were cut into reads.
pub read_capped_lem :
    (max : ℕ) (reads : List Read) → read_capped max [] reads ≡ take max (received reads)
read_capped_lem max reads =
    read_capped_from max [] reads (omega arith) ∙ ap (λ n. take n (received reads)) (omega arith)
