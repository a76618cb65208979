-- ===== src/Errors/Laws.antt =====
-- When an error is one of a certificate (ipp-async/src/error.rs).
use ipp_client.Prelude.{
  String, ◌<>◌, ◌≡◌, ◌↔◌, ◌⊎◌, inl, inr, true, Bool-cases, List, [], ◌∷◌, arith,
}
use ipp_client.Prelude.Text.{contains}
use ipp_client.Prelude.Text.Affix.{contains-append, contains-eq-true}
use ipp_client.Errors.{Error}
use ipp_client.Errors.Chain.{
  display, sources, names_certificate, certificate_loop, is_certificate_error,
}

-- One text has another inside.
abbrev pub Holds : String → String → Type 0
Holds p s = (l : String) × (r : String) × (s ≡ l <> (p <> r))

abbrev pub NamesCertificate : String → Type 0
NamesCertificate t = Holds "certificate" t ⊎ Holds "CertificateError" t

abbrev pub Somewhere : (String → Type 0) → List String → Type 0
Somewhere P [] = ⊥
Somewhere P (t ∷ ts) = P t ⊎ Somewhere P ts

names_iff : (t : String) → (names_certificate t ≡ true) ↔ NamesCertificate t
unfolding names_certificate
names_iff t = elim (Bool-cases (contains "certificate" t)) [
  | inl a ↦ (λ h. inl (contains-eq-true "certificate" t a), λ h. rw a)
  | inr a ↦ (
    λ h. inr (contains-eq-true "CertificateError" t (ground (arith, a, h))),
    λ h. elim h [
      | inl (l, r, e) ↦ cc (contains-append "certificate" l r)
      | inr (l, r, e) ↦ rw (a, e) (contains-append "CertificateError" l r)
    ],
  )
]

loop_iff : (ts : List String) → (certificate_loop ts ≡ true) ↔ Somewhere NamesCertificate ts
unfolding certificate_loop
loop_iff [] = (λ h. cc, λ h. absurd h)
loop_iff (t ∷ ts) = elim (Bool-cases (names_certificate t)) [
  | inl a ↦ (λ h. inl ((names_iff t).0 a), λ h. rw (certificate_loop, a))
  | inr a ↦ (
    λ h. inr ((loop_iff ts).0 (ground (arith, a, h))),
    λ h. elim h [
      | inl n ↦ cc ((names_iff t).1 n)
      | inr later ↦ rw (certificate_loop, a) ((loop_iff ts).1 later)
    ],
  )
]

-- An error is one of a certificate if and only if its own text, or the text of one of its sources
-- however deep, has `certificate` or `CertificateError` inside.
pub is_certificate_error_lem :
    (e : Error)
    → (is_certificate_error e ≡ true) ↔ Somewhere NamesCertificate (display e ∷ sources e)
unfolding is_certificate_error
is_certificate_error_lem e = loop_iff (display e ∷ sources e)
