-- ===== src/Aws/NotFound.antt =====
-- The header of the reply to a request for what is not there, in the send buffer of
-- async-web-server/src/aws.c.
use operating_system_challen.Base.{
  ℕ, zero, suc, ◌+◌, ◌==◌, not, ◌≡◌, refl, ◌∙◌, ap, Bool, true, false, ◌&&◌, [], ◌∷◌, ◌++◌, length,
  Bool-cases, inl, inr,
}
use mathlib.Core.List.{append-nil}
use operating_system_challen.Aws.Buffer.{
  Text, take, drop, overlay, text_of, zeros, not_found_header,
}

no_nul : Text → Bool
no_nul [] = true
no_nul (b ∷ bs) = not (b == 0) && no_nul bs

text_of-zeros : (n m : ℕ) → text_of (drop n (zeros m)) ≡ []
unfolding text_of zeros
text_of-zeros zero zero = refl
text_of-zeros zero (suc m) = refl
text_of-zeros (suc n) zero = refl
text_of-zeros (suc n) (suc m) = text_of-zeros n m

text_of-append : (h t : Text) → no_nul h ≡ true → text_of (h ++ t) ≡ h ++ text_of t
unfolding text_of no_nul
text_of-append [] t e = refl
text_of-append (b ∷ bs) t e = elim (Bool-cases (b == 0)) [
  | inl z ↦ let f : false ≡ true = rw z at e in absurd cc
  | inr z ↦ let f : no_nul bs ≡ true = rw z at e in rw z (ap (λ c. b ∷ c) (text_of-append bs t f))
]

header_bytes : no_nul not_found_header ≡ true
unfolding no_nul
header_bytes = refl

-- The send buffer of the reply, and its length.
abbrev pub reply_buffer : ℕ → Text
reply_buffer size = overlay (zeros size) 0 not_found_header

pub reply_text : (size : ℕ) → text_of (reply_buffer size) ≡ not_found_header
unfolding overlay
reply_text size =
    text_of-append not_found_header (drop (0 + length not_found_header) (zeros size)) header_bytes
    ∙ ap (λ t. not_found_header ++ t) (text_of-zeros (0 + length not_found_header) size)
    ∙ append-nil not_found_header

pub take-append : (h t : Text) → take (length h) (h ++ t) ≡ h
take-append [] t = refl
take-append (b ∷ h) t = ap (λ c. b ∷ c) (take-append h t)
