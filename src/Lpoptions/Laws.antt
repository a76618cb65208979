-- ===== src/Lpoptions/Laws.antt =====
-- Which default printer the lpoptions files name (ipp-async/src/lpoptions.rs).
use ipp_client.Prelude.{
  String, ◌≡◌, refl, ap, ◌∙◌, ◌⊎◌, inl, inr, Bool, true, false, not, Bool-cases, Option,
  Option-cases, none, some, and_then, List, [], ◌∷◌, ◌++◌, All, arith, first, unwrap_or, filter,
  filter_map,
}
use ipp_client.Prelude.Text.{is_empty, lines}
use ipp_client.Lpoptions.{last_of, destination, parse_default, default_printer_from_all}

last_of-cons :
    {A : Type 0} (x : A) (ys : List A) → last_of (x ∷ ys) ≡ some (unwrap_or (last_of ys) x)
unfolding last_of
last_of-cons x [] = refl
last_of-cons x (y ∷ ys) = rw (last_of-cons y ys)

-- The last element of a list that passes, by what stands before and after it.
last_of-filter :
    {A : Type 0} (p : A → Bool) (xs : List A)
    → ((last_of (filter p xs) ≡ none) × All (λ x. p x ≡ false) xs)
      ⊎ ((before after : List A) × (x : A) × (last_of (filter p xs) ≡ some x)
          × (xs ≡ before ++ (x ∷ after))
          × (p x ≡ true)
          × All (λ x. p x ≡ false) after)
unfolding last_of
last_of-filter p [] = inl (refl, tt)
last_of-filter {A = A} p (x ∷ xs) = elim (last_of-filter p xs) [
  | inr (before, after, y, l, e, py, all) ↦
      inr (x ∷ before, after, y, kept y l, ap (λ ys. x ∷ ys) e, py, all)
  | inl (l, all) ↦ elim (Bool-cases (p x)) [
    | inl t ↦ inr ([], xs, x, rw t (last_of-cons x (filter p xs) ∙ rw l), refl, t, all)
    | inr f ↦ inl (rw f l, (f, all))
  ]
]
  where
    kept : (y : A) → last_of (filter p xs) ≡ some y → last_of (filter p (x ∷ xs)) ≡ some y
    kept y l = elim (Bool-cases (p x)) [
      | inl t ↦ rw t (last_of-cons x (filter p xs) ∙ rw l)
      | inr f ↦ rw f l
    ]

-- The default of the files is that of the first of them, in their order, that can be read and
-- names one.
pub default_printer_from_all_lem :
    (read_to_string : String → Option String) (paths : List String)
    → default_printer_from_all read_to_string paths
      ≡ first (filter_map (λ path. and_then (read_to_string path) parse_default) paths)
unfolding default_printer_from_all
default_printer_from_all_lem read [] = refl
default_printer_from_all_lem read (path ∷ paths) =
    elim (Option-cases (and_then (read path) parse_default)) [
      | inl e ↦ rw (default_printer_from_all, e) (default_printer_from_all_lem read paths)
      | inr (d, e) ↦ rw (default_printer_from_all, e)
    ]

-- The destinations that the lines of a file name, in their order: a `Default` line names its
-- second word up to the first slash.
abbrev pub destinations : String → List String
destinations contents = filter_map destination (lines contents)

-- Of the destinations that the lines of a file name, the last that is not empty is the default;
-- there is no default if and only if there is none.
pub parse_default_lem :
    (contents : String)
    → ((parse_default contents ≡ none) × All (λ d. is_empty d ≡ true) (destinations contents))
      ⊎ ((before after : List String) × (d : String) × (parse_default contents ≡ some d)
          × (destinations contents ≡ before ++ (d ∷ after))
          × (is_empty d ≡ false)
          × All (λ d. is_empty d ≡ true) after)
unfolding parse_default
parse_default_lem contents = elim (last_of-filter (λ d. not (is_empty d)) (destinations contents)) [
  | inl (l, all) ↦ inl (l, empty _ all)
  | inr (before, after, d, l, e, named, rest) ↦
      inr (before, after, d, l, e, ground (arith, named), empty after rest)
]
  where
    empty :
        (ds : List String)
        → All (λ d. not (is_empty d) ≡ false) ds
        → All (λ d. is_empty d ≡ true) ds
    empty [] h = tt
    empty (d ∷ ds) h = (ground (arith, h.0), empty ds h.1)
