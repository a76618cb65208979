-- ===== src/Prelude/Text/Laws.antt =====
-- What the methods of `str` do at a separator.
use Prim.Native.Char.{Char, code}
use Prim.Native.String.{String, [], ◌∷◌, ◌++◌}
use mathlib.Core.Path.{◌≡◌, refl}
use mathlib.Core.Logic.{inl, inr}
use mathlib.Core.Option.{Option, none, some}
use native.Mathlib.Omega.{arith}
use text.Mathlib.TextEquality.{Char-path}
use text.Mathlib.TextLemmas.{cons-append, nil-append}
use ipp_client.Prelude.Tests.{◌==◌, Bool-cases, Option-cases, if◌then◌else◌}
use ipp_client.Prelude.Text.{Lacks, split_once, rsplit_once, first_piece, last_piece}

rsplit_once-Lacks : (d : Char) (s : String) → Lacks (code d) s → rsplit_once (code d) s ≡ none
unfolding rsplit_once
rsplit_once-Lacks d [] h = refl
rsplit_once-Lacks d (c ∷ s) h = ground (arith, rsplit_once-Lacks d s h.1)

pub rsplit_once-append :
    (d : Char) (l r : String) → Lacks (code d) r → rsplit_once (code d) (l ++ (d ∷ r)) ≡ some (l, r)
unfolding rsplit_once
rsplit_once-append d [] r h = rw nil-append (ground (arith, rsplit_once-Lacks d r h))
rsplit_once-append d (c ∷ l) r h = rw cons-append (ground (arith, rsplit_once-append d l r h))

pub split_once-append :
    (d : Char) (l r : String) → Lacks (code d) l → split_once (code d) (l ++ (d ∷ r)) ≡ some (l, r)
unfolding split_once
split_once-append d [] r h = rw nil-append (ground arith)
split_once-append d (c ∷ l) r h = rw cons-append (ground (arith, split_once-append d l r h.1))

rsplit_once-none : (d : Char) (s : String) → rsplit_once (code d) s ≡ none → Lacks (code d) s
unfolding rsplit_once
rsplit_once-none d [] h = tt
rsplit_once-none d (c ∷ s) h = ground (arith, rsplit_once-none d s)

at_separator :
    (c d : Char) (s l r : String)
    → if◌then◌else◌ {A = Option (String × String)} (code c == code d) (some ([], s)) none
      ≡ some (l, r)
    → (c ∷ s ≡ l ++ (d ∷ r)) × (s ≡ r) × (l ≡ [])
at_separator c d s l r h = ground (arith, nil-append (d ∷ s), Char-path c d)

-- A split at the last separator puts the text together again.
pub rsplit_once-eq-some :
    (d : Char) (s l r : String)
    → rsplit_once (code d) s ≡ some (l, r)
    → (s ≡ l ++ (d ∷ r)) × Lacks (code d) r
unfolding rsplit_once
rsplit_once-eq-some d [] l r h = cc
rsplit_once-eq-some d (c ∷ s) l r h = elim (Option-cases (rsplit_once (code d) s)) [
  | inl e ↦
      let (whole, same, _) = at_separator c d s l r (rw (e, rsplit_once) at h) in
      (whole, rw same at (rsplit_once-none d s e))
  | inr ((l', r'), e) ↦
      let (whole, lacks) = rsplit_once-eq-some d s l' r' e in
      let parts : (c ∷ l' ≡ l) × (r' ≡ r) = ground arith in
      (ground (arith, cons-append c l' (d ∷ r)), rw parts.1 at lacks)
]

pub split_once-eq-some :
    (d : Char) (s l r : String)
    → split_once (code d) s ≡ some (l, r)
    → (s ≡ l ++ (d ∷ r)) × Lacks (code d) l
unfolding split_once
split_once-eq-some d [] l r h = cc
split_once-eq-some d (c ∷ s) l r h = elim (Bool-cases (code c == code d)) [
  | inl e ↦
      let (whole, _, front) = at_separator c d s l r (rw e (rw (e, split_once) at h)) in
      (whole, rw front tt)
  | inr e ↦ elim (Option-cases (split_once (code d) s)) [
    | inl n ↦ cc (rw (e, n, split_once) at h)
    | inr ((l', r'), f) ↦
        let (whole, lacks) = split_once-eq-some d s l' r' f in
        let parts : (c ∷ l' ≡ l) × (r' ≡ r) = ground arith in
        (ground (arith, cons-append c l' (d ∷ r)), rw (← parts.0) (ground (arith, e), lacks))
  ]
]

first_piece-Lacks : (d : Char) (s : String) → Lacks (code d) (first_piece (code d) s)
unfolding first_piece
first_piece-Lacks d [] = tt
first_piece-Lacks d (c ∷ s) = elim (Bool-cases (code c == code d)) [
  | inl e ↦ rw e tt
  | inr e ↦ rw e (ground (arith, e), first_piece-Lacks d s)
]

pub first_piece-append :
    (d : Char) (l r : String) → Lacks (code d) l → first_piece (code d) (l ++ (d ∷ r)) ≡ l
unfolding first_piece
first_piece-append d [] r h = rw nil-append (ground arith)
first_piece-append d (c ∷ l) r h = rw cons-append (ground (arith, first_piece-append d l r h.1))

pub first_piece_whole : (d : Char) (l : String) → Lacks (code d) l → first_piece (code d) l ≡ l
unfolding first_piece
first_piece_whole d [] h = refl
first_piece_whole d (c ∷ l) h = ground (arith, first_piece_whole d l h.1)

pub last_piece-append :
    (d : Char) (l r : String) → Lacks (code d) r → last_piece (code d) (l ++ (d ∷ r)) ≡ r
unfolding last_piece
last_piece-append d l r h = rw (rsplit_once-append d l r h, last_piece)

pub last_piece_whole : (d : Char) (s : String) → Lacks (code d) s → last_piece (code d) s ≡ s
unfolding last_piece
last_piece_whole d s h = rw (rsplit_once-Lacks d s h, last_piece)

-- Behind the last separator there is none.
pub last_piece-Lacks : (d : Char) (s : String) → Lacks (code d) (last_piece (code d) s)
unfolding last_piece
last_piece-Lacks d s = elim (Option-cases (rsplit_once (code d) s)) [
  | inl e ↦ rw (last_piece, e) (rsplit_once-none d s e)
  | inr ((l, r), e) ↦ rw (last_piece, e) (rsplit_once-eq-some d s l r e).1
]
