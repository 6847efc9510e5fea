-- ===== src/GpuValidate/Lists.antt =====
-- agentserve/settings.py: `_csv` on a text that joins others with commas.
use agentserve.Common.Text.{strip, lstrip_by, rstrip_by, is_empty, is_space, split_at}
use agentserve.Common.{
  ℕ, ◌≡◌, refl, ap, ◌∙◌, inl, inr, ◌==◌, String, Bool, false, List, [], ◌∷◌, All, Bool-cases,
}
use agentserve.GpuValidate.{join_by_comma}
use agentserve.Settings.{trim_part, full_parts}
use text.Mathlib.TextLemmas.{nil-append, cons-append}
use Prim.Native.Char.{code}
use Prim.Native.String.{◌++◌ as append}

-- Neither a space nor a comma.
abbrev pub IsPlain : ℕ → Type 0
IsPlain c = (is_space c ≡ false) × ((c == b',') ≡ false)

abbrev pub AllPlain : String → Type 0
AllPlain String.[] = Unit
AllPlain (String.◌∷◌ c s) = IsPlain (code c) × AllPlain s

-- A text that `_csv` keeps as it is.
abbrev pub IsPart : String → Type 0
IsPart s = AllPlain s × (is_empty s ≡ false)

pub AllPlain-append : (s t : String) → AllPlain s → AllPlain t → AllPlain (append s t)
AllPlain-append String.[] t h k = rw (nil-append t) k
AllPlain-append (String.◌∷◌ c s) t h k = rw (cons-append c s t) (h.0, AllPlain-append s t h.1 k)

rstrip_by-plain :
    (cut : ℕ → Bool) (kept : (c : ℕ) → IsPlain c → cut c ≡ false) (s : String)
    → AllPlain s
    → rstrip_by cut s ≡ s
unfolding rstrip_by
rstrip_by-plain cut kept String.[] h = refl
rstrip_by-plain cut kept (String.◌∷◌ c s) h =
    let same = kept (code c) h.0 in
    rw (rstrip_by-plain cut kept s h.1, same)
      (elim (Bool-cases (is_empty s)) [ inl none ↦ rw none | inr more ↦ rw more ])

lstrip_by-space : (s : String) → AllPlain s → lstrip_by is_space s ≡ s
unfolding lstrip_by
lstrip_by-space String.[] h = refl
lstrip_by-space (String.◌∷◌ c s) h = rw h.0.0

trim_part-plain : (s : String) → AllPlain s → trim_part s ≡ s
unfolding trim_part strip
trim_part-plain s h =
    ap (rstrip_by (λ c. c == b','))
      (ap (rstrip_by is_space) (lstrip_by-space s h) ∙ rstrip_by-plain is_space (λ c p. p.0) s h)
    ∙ rstrip_by-plain (λ c. c == b',') (λ c p. p.1) s h

split_at-plain : (s : String) → AllPlain s → split_at b',' s ≡ s ∷ []
unfolding split_at
split_at-plain String.[] h = refl
split_at-plain (String.◌∷◌ c s) h = rw (split_at-plain s h.1, h.0.1)

split_at-some : (c : ℕ) (s : String) → (p : String) × (ps : List String) × (split_at c s ≡ p ∷ ps)
unfolding split_at
split_at-some c String.[] = (String.[], [], refl)
split_at-some c (String.◌∷◌ d s) =
    let (p, ps, e) = split_at-some c s in
    elim (Bool-cases (code d == c)) [
      | inl here ↦ (String.[], p ∷ ps, rw (e, here))
      | inr other ↦ (String.◌∷◌ d p, ps, rw (e, other))
    ]

split_at-comma : (rest : String) → split_at b',' (append "," rest) ≡ String.[] ∷ split_at b',' rest
unfolding split_at
split_at-comma rest =
    let (p, ps, e) = split_at-some b',' rest in
    rw (cons-append _ "" rest, nil-append rest, split_at, e)

split_at-join :
    (s rest : String)
    → AllPlain s
    → split_at b',' (append s (append "," rest)) ≡ s ∷ split_at b',' rest
unfolding split_at
split_at-join String.[] rest h = rw (nil-append (append "," rest)) (split_at-comma rest)
split_at-join (String.◌∷◌ c s) rest h =
    rw (cons-append c s (append "," rest), split_at, split_at-join s rest h.1, h.0.1)

full_parts-part :
    (s : String) (parts : List String) → IsPart s → full_parts (s ∷ parts) ≡ s ∷ full_parts parts
unfolding full_parts
full_parts-part s parts h = rw (trim_part-plain s h.0, h.1)

full_parts-nil : full_parts [] ≡ []
unfolding full_parts
full_parts-nil = refl

no_parts : full_parts (split_at b',' "") ≡ []
unfolding full_parts trim_part strip lstrip_by rstrip_by split_at
no_parts = refl

pub full_number : (s : String) → IsPart s → is_empty (strip s) ≡ false
unfolding strip
full_number s h =
    ap is_empty (
      ap (rstrip_by is_space) (lstrip_by-space s h.0) ∙ rstrip_by-plain is_space (λ c p. p.0) s h.0)
    ∙ h.1

pub csv-join_by_comma :
    (texts : List String)
    → All IsPart texts
    → full_parts (split_at b',' (join_by_comma texts)) ≡ texts
unfolding join_by_comma
csv-join_by_comma [] h = no_parts
csv-join_by_comma (text ∷ []) h =
    rw (split_at-plain text h.0.0) (full_parts-part text [] h.0 ∙ ap (◌∷◌ text) full_parts-nil)
csv-join_by_comma (text ∷ more ∷ texts) h =
    rw (split_at-join text (join_by_comma (more ∷ texts)) h.0.0)
      (full_parts-part text _ h.0 ∙ ap (◌∷◌ text) (csv-join_by_comma (more ∷ texts) h.1))
