-- ===== src/LogicalPlan/Matchers.antt =====
-- Label matchers, and the maps from label names to matchers that the passes build from them.
-- Whether a matcher accepts a value is not code of this repository: a function `accepts`.
-- A series is the function from label names to values, "" where it lacks the label.
use text.Mathlib.Text.{◌==◌ as str_eq}
use text.Mathlib.TextEquality.{eq_iff}
use promql_engine.Prelude.{
  ◌≡◌, refl, ◌∙◌, ◌⊎◌, inl, inr, arith, Bool, true, false, ◌&&◌, List, [], ◌∷◌, Option, none, some,
  String, if◌then◌else◌, In, all,
}
use promql_engine.LogicalPlan.Nodes.{
  Matcher, MatchType, match_equal, match_not_equal, match_regexp, match_not_regexp,
}

-- labels.MetricName.
abbrev pub metric_name : String
metric_name = "__name__"

abbrev pub kind_eq : MatchType → MatchType → Bool
kind_eq match_equal match_equal = true
kind_eq match_not_equal match_not_equal = true
kind_eq match_regexp match_regexp = true
kind_eq match_not_regexp match_not_regexp = true
kind_eq _ _ = false

-- The comparison of name, type and value that dropMatcher and findReplacement write out.
unfoldable pub matcher_eq : Matcher → Matcher → Bool
matcher_eq l m = str_eq l.name m.name && kind_eq l.kind m.kind && str_eq l.value m.value

pub kind_eq_sound : (a b : MatchType) → kind_eq a b ≡ true → a ≡ b
kind_eq_sound a b h = ground arith

pub matcher_eq_sound : (l m : Matcher) → matcher_eq l m ≡ true → l ≡ m
unfolding matcher_eq
matcher_eq_sound l m h =
    ground (arith, kind_eq_sound l.kind m.kind, eq_iff l.name m.name, eq_iff l.value m.value)

kind_eq_self : (a : MatchType) → kind_eq a a ≡ true
kind_eq_self a = ground arith

pub matcher_eq_self : (l : Matcher) → matcher_eq l l ≡ true
unfolding matcher_eq
matcher_eq_self l =
    ground (arith, kind_eq_self l.kind, eq_iff l.name l.name, eq_iff l.value l.value)

abbrev pub MatcherMap : Type 0
MatcherMap = List (String × Matcher)

unfoldable pub insert_matcher : String → Matcher → MatcherMap → MatcherMap
insert_matcher k m [] = (k, m) ∷ []
insert_matcher k m ((j, old) ∷ r) =
    if str_eq j k then (k, m) ∷ r else (j, old) ∷ insert_matcher k m r

unfoldable pub lookup_matcher : String → MatcherMap → Option Matcher
lookup_matcher k [] = none
lookup_matcher k ((j, m) ∷ r) = if str_eq j k then some m else lookup_matcher k r

-- The loop of matcherToMap, from the map that the earlier matchers have built.
unfoldable pub add_matchers : List Matcher → MatcherMap → MatcherMap
add_matchers [] r = r
add_matchers (m ∷ ms) r = add_matchers ms (insert_matcher m.name m r)

unfoldable pub matcher_to_map : List Matcher → MatcherMap
matcher_to_map ms = add_matchers ms []

pub lookup-insert :
    (k j : String) (m : Matcher) (r : MatcherMap)
    → lookup_matcher j (insert_matcher k m r) ≡ (if str_eq k j then some m else lookup_matcher j r)
unfolding lookup_matcher insert_matcher
lookup-insert k j m [] = refl
lookup-insert k j m ((i, w) ∷ r) =
    ground (arith, eq_iff k j, eq_iff i k, eq_iff i j, lookup-insert k j m r)

-- No matcher of the list has the name.
abbrev pub Unnamed : String → List Matcher → Type 0
Unnamed k [] = Unit
Unnamed k (m ∷ ms) = (str_eq m.name k ≡ false) × Unnamed k ms

-- The names of the matchers are different.
abbrev pub Distinct : List Matcher → Type 0
Distinct [] = Unit
Distinct (m ∷ ms) = Unnamed m.name ms × Distinct ms

lookup-add-Unnamed :
    (k : String) (ms : List Matcher) (r : MatcherMap)
    → Unnamed k ms
    → lookup_matcher k (add_matchers ms r) ≡ lookup_matcher k r
unfolding add_matchers
lookup-add-Unnamed k [] r u = refl
lookup-add-Unnamed k (m ∷ ms) r u =
    lookup-add-Unnamed k ms (insert_matcher m.name m r) u.1 ∙ rw (lookup-insert m.name k m r, u.0)

str_eq_self : (s : String) → str_eq s s ≡ true
str_eq_self s = (eq_iff s s).1 refl

-- Where the names are different every matcher is found under its name.
pub lookup-add-Distinct :
    (m : Matcher) (ms : List Matcher) (r : MatcherMap)
    → Distinct ms
    → In m ms
    → lookup_matcher m.name (add_matchers ms r) ≡ some m
unfolding add_matchers
lookup-add-Distinct m [] r d i = absurd i
lookup-add-Distinct m (x ∷ ms) r d (inl e) = rw e (
    lookup-add-Unnamed x.name ms (insert_matcher x.name x r) d.0
    ∙ rw (lookup-insert x.name x.name x r, str_eq_self x.name) refl)
lookup-add-Distinct m (x ∷ ms) r d (inr i) =
    lookup-add-Distinct m ms (insert_matcher x.name x r) d.1 i

-- What is found in the map is one of the matchers, under its name, or was there before.
pub In-lookup-add :
    (k : String) (ms : List Matcher) (r : MatcherMap) (m : Matcher)
    → lookup_matcher k (add_matchers ms r) ≡ some m
    → In m ms ⊎ (lookup_matcher k r ≡ some m)
unfolding add_matchers
In-lookup-add k [] r m h = inr h
In-lookup-add k (x ∷ ms) r m h = elim (In-lookup-add k ms (insert_matcher x.name x r) m h) [
  | inl i ↦ inl (inr i)
  | inr e ↦ placed (ground (arith, lookup-insert x.name k x r))
]
  where
    placed :
        (m ≡ x) ⊎ (lookup_matcher k r ≡ some m) → (In m (x ∷ ms)) ⊎ (lookup_matcher k r ≡ some m)
    placed (inl e) = inl (inl e)
    placed (inr e) = inr e

-- The matchers accept the series.
abbrev pub selects : (Matcher → String → Bool) → List Matcher → (String → String) → Bool
selects accepts ms s = all (λ m. accepts m (s m.name)) ms
