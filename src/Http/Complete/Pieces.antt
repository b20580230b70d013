-- ===== src/Http/Complete/Pieces.antt =====
-- bufio and io: the bytes that are wanted, and the pieces in which they come.
use multi_threaded_web_serve.Base.{
  ℕ, ◌≤◌, ◌<◌, [], ◌∷◌, ◌++◌, ◌≡◌, ◌∙◌, refl, sym, ap, append_assoc, append-nil, arith, Bool-cases,
  inl, inr, ◌⊎◌, Bytes, leb, leb→le, leb→lt, length, take, drop, length-drop, take-append-drop,
  length-take,
}

-- Two splittings of one string, by the lengths of their first parts.
pub longer :
    (xs ys zs ws : Bytes)
    → xs ++ ys ≡ zs ++ ws
    → length xs ≤ length zs
    → (us : Bytes) × (zs ≡ xs ++ us) × (ys ≡ us ++ ws)
longer [] ys zs ws e h = (zs, refl, e)
longer (x ∷ xs) ys [] ws e h = absurd (omega (arith, h))
longer (x ∷ xs) ys (z ∷ zs) ws e h =
    let head : x ≡ z = cc in
    let tail : xs ++ ys ≡ zs ++ ws = cc in
    let (us, a, b) = longer xs ys zs ws tail (omega (arith, h)) in (us, cc, b)

pub same_parts :
    (xs ys zs ws : Bytes) → xs ++ ys ≡ zs ++ ws → length xs ≡ length zs → (xs ≡ zs) × (ys ≡ ws)
same_parts [] ys [] ws e h = (refl, e)
same_parts [] ys (z ∷ zs) ws e h = absurd (omega (arith, h))
same_parts (x ∷ xs) ys [] ws e h = absurd (omega (arith, h))
same_parts (x ∷ xs) ys (z ∷ zs) ws e h =
    let tail : xs ++ ys ≡ zs ++ ws = cc in
    let (a, b) = same_parts xs ys zs ws tail (omega (arith, h)) in (cc, b)

-- The first piece either ends inside the part that is wanted, or holds the whole of it.
abbrev pub EndOfPiece : ℕ → Bytes → Bytes → Bytes → Bytes → Type 0
EndOfPiece n p others part t =
    ((us : Bytes) × (length p ≤ n) × (part ≡ p ++ us) × (others ≡ us ++ t))
    ⊎ ((n < length p) × (take n p ≡ part) × (drop n p ++ others ≡ t))

pub split_at :
    (n : ℕ) (p others part t : Bytes)
    → p ++ others ≡ part ++ t
    → length part ≡ n
    → n ≤ length p
    → (take n p ≡ part) × (drop n p ++ others ≡ t)
split_at n p others part t e h le =
    same_parts (take n p) (drop n p ++ others) part t
      (sym (append_assoc (take n p) (drop n p) others)
        ∙ ap (λ s. s ++ others) (take-append-drop n p)
        ∙ e)
      (length-take n p le ∙ sym h)

pub end_of_piece :
    (n : ℕ) (p others part t : Bytes)
    → p ++ others ≡ part ++ t
    → length part ≡ n
    → EndOfPiece n p others part t
end_of_piece n p others part t e h = elim (Bool-cases (leb (length p) n)) [
  | inl y ↦
      let le = leb→le (length p) n y in
      let (us, a, b) = longer p others part t e (omega (arith, h, le)) in inl (us, le, a, b)
  | inr k ↦
      let lt = leb→lt (length p) n k in
      let (a, b) = split_at n p others part t e h (omega (arith, lt)) in inr (lt, a, b)
]

pub nil_of_length : (s : Bytes) → length s ≡ 0 → s ≡ []
nil_of_length [] h = refl
nil_of_length (b ∷ s) h = absurd (omega (arith, h))

pub drop_all : (n : ℕ) (p : Bytes) → length p ≤ n → drop n p ≡ []
drop_all n p h = nil_of_length (drop n p) (omega (arith, length-drop n p, h))

pub take_all : (n : ℕ) (p : Bytes) → length p ≤ n → take n p ≡ p
take_all n p h =
    sym (append-nil (take n p))
    ∙ ap (λ s. take n p ++ s) (sym (drop_all n p h))
    ∙ take-append-drop n p
