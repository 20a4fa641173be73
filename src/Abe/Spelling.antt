-- ===== src/Abe/Spelling.antt =====
-- core/crypto/abe.py: the words of the text of a formula.
use Prim.Native.Char.{Char}
use Prim.Native.String.{String, ◌++◌ as append}
use text.Mathlib.TextLemmas.{cons-append, nil-append, append-nil, append_assoc}
use trustmem.Prelude.{
  Bool, true, false, ◌&&◌, not, List, [], ◌∷◌, ◌++◌, ◌≡◌, refl, sym, ap, and_left, and_right, arith,
}
use trustmem.Prelude.Prefix.{prepend, append-prepend}
use trustmem.Abe.Tokens.{Sort, wordly, sort_of, flush, push, scan, tokenize}

abbrev is_wordly : Sort → Bool
is_wordly wordly = true
is_wordly s = false

append_nil : (ws : List String) → ws ++ [] ≡ ws
append_nil [] = refl
append_nil (w ∷ ws) = ap (◌∷◌ w) (append_nil ws)

module _ (is_alphanumeric : Char → Bool) where
  -- Every character is one of a word's.
  unfoldable pub all_wordly : String → Bool
  all_wordly String.[] = true
  all_wordly (String.◌∷◌ c s) = is_wordly (sort_of is_alphanumeric c) && all_wordly s

  pub all_wordly-append : (s t : String) → all_wordly (append s t) ≡ (all_wordly s && all_wordly t)
  unfolding all_wordly prepend
  all_wordly-append String.[] t = rw (nil-append t) refl
  all_wordly-append (String.◌∷◌ c s) t =
      rw (cons-append c s t) (ground (arith, all_wordly-append s t))

  -- What follows does not go on with a word.
  unfoldable pub separated : String → Bool
  separated String.[] = true
  separated (String.◌∷◌ c s) = not (is_wordly (sort_of is_alphanumeric c))

  scan-append :
      (acc w t : String)
      → all_wordly w ≡ true
      → scan is_alphanumeric acc (append w t) ≡ scan is_alphanumeric (append acc w) t
  unfolding all_wordly scan push
  scan-append acc String.[] t h = rw (nil-append t, append-nil acc) refl
  scan-append acc (String.◌∷◌ c w) t h =
      let first = and_left (is_wordly (sort_of is_alphanumeric c)) (all_wordly w) h in
      let rest = and_right (is_wordly (sort_of is_alphanumeric c)) (all_wordly w) h in
      let ih = scan-append (append acc (String.◌∷◌ c String.[])) w t rest in
      rw (cons-append c w t) (
        ground (
          arith,
          first,
          ih,
          append_assoc acc (String.◌∷◌ c String.[]) w,
          cons-append c String.[] w,
          nil-append w,
        ))

  scan-separated :
      (w t : String)
      → separated t ≡ true
      → scan is_alphanumeric w t ≡ flush w ++ scan is_alphanumeric "" t
  unfolding separated scan
  scan-separated w String.[] h = sym (append_nil (flush w))
  scan-separated w (String.◌∷◌ c t) h = ground (arith, h)

  -- A text whose words, in front of what follows, are those that `p` puts there.
  pub data Spells (s : String) (p : List String → List String) : Type 0 where
    spells :
        ((t : String)
          → separated t ≡ true
          → scan is_alphanumeric "" (append s t) ≡ p (scan is_alphanumeric "" t))
        → Spells s p

  pub Spells-word : (w : String) → all_wordly w ≡ true → flush w ≡ w ∷ [] → Spells w (◌∷◌ w)
  Spells-word w h e =
      spells
        λ t separate. rw (scan-append "" w t h, nil-append w, scan-separated w t separate, e) refl

  open_group :
      (t : String) → scan is_alphanumeric "" (append "(" t) ≡ "(" ∷ scan is_alphanumeric "" t
  unfolding scan sort_of prepend
  open_group t = rw (append-prepend "(" t) refl

  close_group :
      (t : String) → scan is_alphanumeric "" (append ")" t) ≡ ")" ∷ scan is_alphanumeric "" t
  unfolding scan sort_of prepend
  close_group t = rw (append-prepend ")" t) refl

  and_between :
      (t : String) → scan is_alphanumeric "" (append " and " t) ≡ "and" ∷ scan is_alphanumeric "" t
  unfolding scan sort_of prepend
  and_between t = rw (append-prepend " and " t) refl

  or_between :
      (t : String) → scan is_alphanumeric "" (append " or " t) ≡ "or" ∷ scan is_alphanumeric "" t
  unfolding scan sort_of prepend
  or_between t = rw (append-prepend " or " t) refl

  -- A text in front keeps what separates.
  separates :
      (c : Char) (s : String)
      → separated (String.◌∷◌ c s) ≡ true
      → (t : String) → separated (append (String.◌∷◌ c s) t) ≡ true
  unfolding separated
  separates c s h t = rw (cons-append c s t) h

  closing_separates : (t : String) → separated (append ")" t) ≡ true
  unfolding separated sort_of
  closing_separates = separates ")" "" refl

  space_separates : (s t : String) → separated (append (append " " s) t) ≡ true
  unfolding separated sort_of prepend
  space_separates s t = rw (append-prepend " " s) (separates " " s refl t)

  module _ {s : String} {p : List String → List String} where
    pub Spells-group :
        Spells s p → Spells (append "(" (append s ")")) (λ rest. "(" ∷ p (")" ∷ rest))
    Spells-group (spells sp) = spells λ t separate.
        rw
          (
            append_assoc "(" (append s ")") t,
            append_assoc s ")" t,
            open_group (append s (append ")" t)),
            sp (append ")" t) (closing_separates t),
            close_group t,
          )
          refl

    module _ {u : String} {q : List String → List String} where
      pub Spells-and :
          Spells s p
          → Spells u q
          → Spells (append s (append " and " u)) (λ rest. p ("and" ∷ q rest))
      Spells-and (spells sp) (spells sq) = spells λ t separate.
          rw
            (
              append_assoc s (append " and " u) t,
              append_assoc " and " u t,
              sp (append " and " (append u t)) (space_separates "and " (append u t)),
              and_between (append u t),
              sq t separate,
            )
            refl

      pub Spells-or :
          Spells s p → Spells u q → Spells (append s (append " or " u)) (λ rest. p ("or" ∷ q rest))
      Spells-or (spells sp) (spells sq) = spells λ t separate.
          rw
            (
              append_assoc s (append " or " u) t,
              append_assoc " or " u t,
              sp (append " or " (append u t)) (space_separates "or " (append u t)),
              or_between (append u t),
              sq t separate,
            )
            refl

    -- The words of a whole text.
    pub Spells-tokens : Spells s p → tokenize is_alphanumeric s ≡ p []
    unfolding tokenize scan separated
    Spells-tokens (spells sp) = rw (sym (append-nil s)) (sp "" refl)
