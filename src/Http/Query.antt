-- ===== src/Http/Query.antt =====
-- queryInt and queryInt64 of server/internal/httpapi/server.go.
use eagle_condor_sandbox.Prelude.{
  false, [], ◌∷◌, Option, none, some, if◌then◌else◌, ◌≡◌, ◌≢◌, refl, sym, ap, ◌∙◌, subst,
}
use eagle_condor_sandbox.Prelude.Int.{ℤ}
use eagle_condor_sandbox.Prelude.Decimal.{
  parse_int, format_signed, format_signed-ne, IsInt64, parse_int-format, parse_int-IsInt64,
}
use eagle_condor_sandbox.Prelude.Text.{Text, text_eq}
use eagle_condor_sandbox.Prelude.Assoc.{Assoc, lookup}

abbrev value_of : Option Text → Text
value_of none = []
value_of (some t) = t

-- r.URL.Query().Get(key)
unfoldable pub query_get : Assoc Text → Text → Text
unfolding lookup
query_get q key = value_of (lookup key q)

abbrev or_default : Option ℤ → ℤ → ℤ
or_default none def = def
or_default (some n) def = n

-- queryInt64, and queryInt on a 64-bit system.
unfoldable pub query_int : Assoc Text → Text → ℤ → ℤ
unfolding query_get text_eq parse_int
query_int q key def =
    let raw = query_get q key in if text_eq raw [] then def else or_default (parse_int raw) def

query_int-missing :
    (q : Assoc Text) (key : Text) (def : ℤ) → query_get q key ≡ [] → query_int q key def ≡ def
unfolding query_int text_eq
query_int-missing q key def e = rw e refl

query_int-given :
    (q : Assoc Text) (key : Text) (def : ℤ)
    → query_get q key ≢ []
    → query_int q key def ≡ or_default (parse_int (query_get q key)) def
unfolding query_int
query_int-given q key def h = rw (given (query_get q key) h) refl
  where
    given : (t : Text) → t ≢ [] → text_eq t [] ≡ false
    given [] h = absurd (h refl)
    given (c ∷ t) h = unfold text_eq in refl

or_default-IsInt64 :
    (o : Option ℤ) (def : ℤ)
    → ((z : ℤ) → o ≡ some z → IsInt64 z)
    → IsInt64 def
    → IsInt64 (or_default o def)
or_default-IsInt64 none def h d = d
or_default-IsInt64 (some z) def h d = h z refl

-- A number in a query is read back as it was written in decimal, if it fits into an int64;
-- without the key the answer is the default; and whatever text stands there, the answer fits
-- into an int64, as the default does.
pub query_int_lem :
    (q : Assoc Text) (key : Text) (def : ℤ)
    → IsInt64 def
    → (lookup key q ≡ none → query_int q key def ≡ def)
      × ((z : ℤ) → IsInt64 z → lookup key q ≡ some (format_signed z) → query_int q key def ≡ z)
      × IsInt64 (query_int q key def)
query_int_lem q key def d = (
  λ e. query_int-missing q key def (unfold query_get in ap value_of e),
  λ z fits e.
      let raw : query_get q key ≡ format_signed z = unfold query_get in ap value_of e in
      query_int-given q key def (λ n. format_signed-ne z (sym raw ∙ n))
      ∙ ap (λ t. or_default (parse_int t) def) raw
      ∙ ap (λ o. or_default o def) (parse_int-format z fits),
  fits_any (query_get q key) refl,
)
  where
    fits_any : (t : Text) → query_get q key ≡ t → IsInt64 (query_int q key def)
    fits_any [] e = subst IsInt64 (sym (query_int-missing q key def e)) d
    fits_any (c ∷ t) e =
        subst IsInt64 (sym (query_int-given q key def (λ n. cons_ne (sym e ∙ n))))
          (or_default-IsInt64 _ def (parse_int-IsInt64 (query_get q key)) d)
      where
        cons_ne : (c ∷ t) ≡ [] → ⊥
        cons_ne e = cc
