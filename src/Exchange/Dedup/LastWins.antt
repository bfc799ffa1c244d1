-- ===== src/Exchange/Dedup/LastWins.antt =====
-- The dedup operator keeps the last sample of each output series.
use mathlib.Core.Option
use mathlib.Core.Path.{ap₂}
use promql_engine.Prelude.{
  ℕ, ◌<◌, ◌≡◌, refl, ap, ◌∙◌, arith, false, ℤ, eq_ℤ, eq_ℤ_self, List, Option, none, some, length,
  get_elem?, get_elem?_lt, ok,
}
use promql_engine.Model.Vector.{StepVector, reset}
use promql_engine.Exchange.Dedup.{
  Dedup, DedupSample, put_float, put_histogram, dedup_vector, emit_all,
}
use promql_engine.Exchange.Dedup.Step.{InRange, last_for, written, cache_all_lem}
use promql_engine.Exchange.Dedup.Emit.{
  bind_option, find_id, AscendingFrom, float_out, histogram_out, emit_all-Emits, find_id-out,
  out_ids-AscendingFrom,
}

bind_map :
    {E A : Type 0} (m : Option E) (g : E → E) (f : E → Option A)
    → bind_option (Option.map g m) f ≡ bind_option m (λ e. f (g e))
bind_map none g f = refl
bind_map (some e) g f = refl

map-map :
    {E : Type 0} (m : Option E) (g f : E → E)
    → Option.map g (Option.map f m) ≡ Option.map (λ e. g (f e)) m
map-map none g f = refl
map-map (some e) g f = refl

module _ {F H : Type 0} where
  -- No entry carries a histogram or a sample of time `t`.
  abbrev pub IsClean : ℤ → List (DedupSample F H) → Type 0
  IsClean t c =
      (o : ℕ) (e : DedupSample F H) → get_elem? c o ≡ some e → (e.h ≡ none) × (eq_ℤ e.t t ≡ false)

  clean_float :
      (t : ℤ) (e : DedupSample F H) (f : Option F) (h : Option H)
      → (e.h ≡ none) × (eq_ℤ e.t t ≡ false)
      → (float_out t (written (put_histogram t) h (written (put_float t) f e))
          ≡ elim h [ none ↦ f | some x ↦ none ])
        × (histogram_out t (written (put_histogram t) h (written (put_float t) f e)) ≡ h)
  unfolding put_histogram put_float
  clean_float t e f h c = ground (arith, eq_ℤ_self t)

  stale_out :
      (t : ℤ) (e : DedupSample F H) (x : F) {h : H}
      → e.h ≡ some h
      → (float_out t (put_float t x e) ≡ none) × (histogram_out t (put_float t x e) ≡ some h)
  unfolding put_float
  stale_out t e x c = ground (arith, eq_ℤ_self t)

module _ {L F H : Type 0} where
  -- The vector's ids name input series, and its slices of ids and values are equally long.
  pub record Fits (d : Dedup L F H) (vec : StepVector F H) : Type 0 where
    pub float_ids : InRange d.output_index (length d.dedup_cache) vec.sample_ids
    pub float_values : length vec.sample_ids ≡ length vec.samples
    pub histogram_ids : InRange d.output_index (length d.dedup_cache) vec.histogram_ids
    pub histogram_values : length vec.histogram_ids ≡ length vec.histograms

  abbrev pub last_float : Dedup L F H → StepVector F H → ℕ → Option F
  last_float d vec o = last_for d.output_index o vec.sample_ids vec.samples

  abbrev pub last_histogram : Dedup L F H → StepVector F H → ℕ → Option H
  last_histogram d vec o = last_for d.output_index o vec.histogram_ids vec.histograms

  -- A cache entry after the vector's samples for it.
  abbrev pub merged : Dedup L F H → StepVector F H → ℕ → DedupSample F H → DedupSample F H
  merged d vec o e =
      written (put_histogram vec.t) (last_histogram d vec o)
        (written (put_float vec.t) (last_float d vec o) e)

  pub record Merges (d : Dedup L F H) (vec out : StepVector F H) (d' : Dedup L F H) : Type 0 where
    pub time : out.t ≡ vec.t
    pub ascending : AscendingFrom 0 out.sample_ids × AscendingFrom 0 out.histogram_ids
    pub float_at :
        (o : ℕ)
        → find_id o out.sample_ids out.samples
          ≡ bind_option (get_elem? d.dedup_cache o) (λ e. float_out vec.t (merged d vec o e))
    pub histogram_at :
        (o : ℕ)
        → find_id o out.histogram_ids out.histograms
          ≡ bind_option (get_elem? d.dedup_cache o) (λ e. histogram_out vec.t (merged d vec o e))
    pub size : length d'.dedup_cache ≡ length d.dedup_cache
    pub index : d'.output_index ≡ d.output_index

  pub dedup_vector-Merges :
      (d : Dedup L F H) (vec : StepVector F H)
      → Fits d vec
      → (out : StepVector F H) × (d' : Dedup L F H) × (dedup_vector d vec ≡ ok (out, d'))
        × Merges d vec out d'
  unfolding dedup_vector reset put_float put_histogram
  dedup_vector-Merges d vec fits =
      let (c, done, size, at) =
        cache_all_lem (put_float vec.t) (λ x y e. refl) d.output_index vec.sample_ids vec.samples
          d.dedup_cache fits.float_ids fits.float_values in
      let (c', done', size', at') =
        cache_all_lem (put_histogram vec.t) (λ x y e. refl) d.output_index vec.histogram_ids
          vec.histograms c (rw size fits.histogram_ids) fits.histogram_values in
      let e = emit_all-Emits vec.t 0 c' (reset vec.t vec) in
      let at_all : (o : ℕ)
          → get_elem? c' o ≡ Option.map (merged d vec o) (get_elem? d.dedup_cache o) =
        λ o. at' o ∙ ap (Option.map _) (at o) ∙ map-map (get_elem? d.dedup_cache o) _ _ in
      (
        emit_all vec.t 0 c' (reset vec.t vec),
        record d { dedup_cache = c' },
        rw (done, done') refl,
        record {
          time = e.time;
          ascending = (
            rw e.sample_ids (out_ids-AscendingFrom (float_out vec.t) 0 c'),
            rw e.histogram_ids (out_ids-AscendingFrom (histogram_out vec.t) 0 c'),
          );
          float_at = λ o.
              ap₂ (find_id o) e.sample_ids e.samples
              ∙ find_id-out (float_out vec.t) 0 o o c' (omega arith)
              ∙ ap (λ m. bind_option m (float_out vec.t)) (at_all o)
              ∙ bind_map (get_elem? d.dedup_cache o) _ _;
          histogram_at = λ o.
              ap₂ (find_id o) e.histogram_ids e.histograms
              ∙ find_id-out (histogram_out vec.t) 0 o o c' (omega arith)
              ∙ ap (λ m. bind_option m (histogram_out vec.t)) (at_all o)
              ∙ bind_map (get_elem? d.dedup_cache o) _ _;
          size = size' ∙ size;
          index = refl;
        },
      )

  -- The float that wins: none where the series also has a histogram in the vector.
  abbrev pub winning_float : Dedup L F H → StepVector F H → ℕ → Option F
  winning_float d vec o = elim (last_histogram d vec o) [
    | none ↦ last_float d vec o
    | some h ↦ none
  ]

  -- Where the cache holds nothing of this time and no histogram, a vector that fits is replaced by
  -- one with the last sample of each output series, a histogram before a float, and nothing else
  -- for the series of the cache; the ids ascend strictly.
  pub dedup_last_wins :
      (d : Dedup L F H) (vec : StepVector F H)
      → Fits d vec
      → IsClean vec.t d.dedup_cache
      → (out : StepVector F H) × (d' : Dedup L F H) × (dedup_vector d vec ≡ ok (out, d'))
        × (out.t ≡ vec.t)
        × AscendingFrom 0 out.sample_ids
        × AscendingFrom 0 out.histogram_ids
        × ((o : ℕ)
            → o < length d.dedup_cache
            → (find_id o out.sample_ids out.samples ≡ winning_float d vec o)
              × (find_id o out.histogram_ids out.histograms ≡ last_histogram d vec o))
  dedup_last_wins d vec fits clean =
      let (out, d', done, m) = dedup_vector-Merges d vec fits in
      (
        out,
        d',
        done,
        m.time,
        m.ascending.0,
        m.ascending.1,
        λ o lt.
            let (e, at) = get_elem?_lt d.dedup_cache o lt in
            let (f, h) =
              clean_float vec.t e (last_float d vec o) (last_histogram d vec o) (clean o e at) in
            (m.float_at o ∙ rw at f, m.histogram_at o ∙ rw at h),
      )

  -- Once an output series has had a histogram, a later vector that has only a float for it loses the
  -- float: the output repeats the old histogram in its place.
  pub dedup_stale_histogram :
      (d : Dedup L F H) (vec : StepVector F H) (o : ℕ) (e : DedupSample F H) {h : H} {x : F}
      → Fits d vec
      → get_elem? d.dedup_cache o ≡ some e
      → e.h ≡ some h
      → last_float d vec o ≡ some x
      → last_histogram d vec o ≡ none
      → (out : StepVector F H) × (d' : Dedup L F H) × (dedup_vector d vec ≡ ok (out, d'))
        × (find_id o out.sample_ids out.samples ≡ none)
        × (find_id o out.histogram_ids out.histograms ≡ some h)
  dedup_stale_histogram d vec o e {h} {x} fits at cached float no_histogram =
      let (out, d', done, m) = dedup_vector-Merges d vec fits in
      let (f, g) = stale_out vec.t e x cached in
      (
        out,
        d',
        done,
        m.float_at o ∙ rw (at, no_histogram, float) f,
        m.histogram_at o ∙ rw (at, no_histogram, float) g,
      )
