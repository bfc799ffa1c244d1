-- ===== src/Storage/MatrixScanner/Steps.antt =====
-- selectPoints against its specification: the samples of the series inside the range of the step.
use promql_engine.Prelude.{
  ℕ, ◌≡◌, refl, sym, ap, ◌∙◌, arith, ℤ, ◌<ℤ◌, ◌≤ℤ◌, Bool, true, false, ◌&&◌, List, [], ◌∷◌, ◌++◌,
  Option, none, some, All, Bool-cases, inl, inr, Error,
}
use mathlib.Core.Path.{ap₂, subst}
use mathlib.Core.List.{append-nil}
use promql_engine.RingBuffer.Sample.{
  Sample, total_count, keep, IsSorted, keep-agree, keep-keep, IsSorted-keep,
}
use promql_engine.RingBuffer.Generic.{GenericRingBuffer, push, ends_before, reset_buffer}
use promql_engine.RingBuffer.Generic.Window.{after, reset_buffer-keep}
use promql_engine.Storage.MatrixScanner.{
  Reading, MatrixScanner, Pulled, pull, holds_beyond, push_last, settle, select_points,
}
use promql_engine.Storage.MatrixScanner.Windows.{
  window, held, CountsItems, push-count, beyond-All, beyond-inside, beyond-after, keep-split,
}
use promql_engine.Storage.MatrixScanner.Pull.{fresh, Splits, Splits-push, pull-split, pull-rest}

module _ {F H : Type 0} where
  All-of : {P : Sample F H → Type 0} (xs : List (Sample F H)) → ((s : Sample F H) → P s) → All P xs
  All-of [] f = tt
  All-of (x ∷ xs) f = (f x, All-of xs f)

  -- The window of a later step: what the earlier window holds of it, and what lies beyond.
  keep-later :
      (mint maxt mint' maxt' : ℤ) (all : List (Sample F H))
      → IsSorted all
      → mint ≤ℤ mint'
      → maxt ≤ℤ maxt'
      → keep (window mint' maxt') all
        ≡ keep (after mint') (keep (window mint maxt) all)
          ++ keep (window mint' maxt') (keep (after maxt) all)
  keep-later mint maxt mint' maxt' all s h k =
      keep-split (window mint' maxt') maxt all s
      ∙ ap (λ l. l ++ keep (window mint' maxt') (keep (after maxt) all))
          (keep-agree _ (λ q. window mint maxt q && after mint' q) all
              (All-of all (λ q. ground arith))
            ∙ sym (keep-keep (after mint') (window mint maxt) all))

  after-later :
      (maxt maxt' : ℤ) (all : List (Sample F H))
      → maxt ≤ℤ maxt'
      → keep (after maxt') (keep (after maxt) all) ≡ keep (after maxt') all
  after-later maxt maxt' all k =
      keep-keep (after maxt') (after maxt) all
      ∙ keep-agree (λ q. after maxt q && after maxt' q) (after maxt') all
          (All-of all (λ q. ground arith))

module _ {F H : Type 0} (size : H → ℕ) (zero_f : F) (is_stale : F → Bool) (sum : H → F) where
  -- The samples that the scanner has yet to offer to its buffer.
  abbrev pub left : MatrixScanner F H → List (Sample F H)
  left m = held m.last_sample ++ fresh size zero_f is_stale sum m.rest

  -- The buffer holds the samples of the range (mint, maxt]; those beyond it are still to come.
  abbrev pub Follows : List (Sample F H) → ℤ → ℤ → MatrixScanner F H → Type 0
  Follows all mint maxt m =
      (m.buffer.items ≡ keep (window mint maxt) all)
      × (left m ≡ keep (after maxt) all)
      × CountsItems size m.buffer
      × (m.iterator_drained ≡ true → left m ≡ [])

  reset-start :
      (mint evalt : ℤ) (b : GenericRingBuffer F H)
      → (reset_buffer size mint evalt b).current_range_start ≡ mint
  unfolding reset_buffer
  reset-start mint evalt b = elim (Bool-cases (ends_before mint b.items)) [
    | inl e ↦ rw (e, reset_buffer) refl
    | inr e ↦ rw (e, reset_buffer) refl
  ]

  -- What is left is offered up to the end of the range.
  offer-split :
      (maxt : ℤ) (b : GenericRingBuffer F H) (last : Option (Sample F H))
      (rest : List (Reading F H))
      → IsSorted (held last ++ fresh size zero_f is_stale sum rest)
      → CountsItems size b
      → holds_beyond size zero_f is_stale sum maxt last ≡ false
      → Splits size zero_f is_stale sum b.current_range_start maxt b.items
          (held last ++ fresh size zero_f is_stale sum rest)
          (pull size zero_f is_stale sum maxt (push_last size zero_f is_stale sum last b) rest)
  unfolding holds_beyond push_last
  offer-split maxt b none rest s c e = pull-split size zero_f is_stale sum maxt b rest s c
  offer-split maxt b (some x) rest s c e =
      Splits-push size zero_f is_stale sum maxt b x (fresh size zero_f is_stale sum rest)
        (pull size zero_f is_stale sum maxt (push size x b) rest) e
        (pull-split size zero_f is_stale sum maxt (push size x b) rest s.1 (push-count size x b c))

  settle-Follows :
      (all : List (Sample F H)) (mint maxt : ℤ) (error : Option Error) (b : GenericRingBuffer F H)
      (beyond : Option (Sample F H)) (rest : List (Reading F H))
      → b.items ≡ keep (window mint maxt) all
      → held beyond ++ fresh size zero_f is_stale sum rest ≡ keep (after maxt) all
      → CountsItems size b
      → (beyond ≡ none → rest ≡ [])
      → Follows all mint maxt
          (settle size zero_f is_stale sum error
            (record { buffer = b; beyond = beyond; rest = rest })).0
  unfolding settle
  settle-Follows all mint maxt error b none rest i l c d =
      (i, l, c, λ _. ap (fresh size zero_f is_stale sum) (d refl))
  settle-Follows all mint maxt error b (some x) rest i l c d = (i, l, c, λ e. absurd (cc e))

  -- A step whose points are all beyond its range, because the last one read is or none are left.
  idle-Follows :
      (all : List (Sample F H)) (mint maxt : ℤ) (b : GenericRingBuffer F H) (m : MatrixScanner F H)
      → keep (window mint maxt) all ≡ b.items ++ keep (window mint maxt) (left m)
      → keep (after maxt) all ≡ keep (after maxt) (left m)
      → All (λ q. maxt <ℤ q.t) (left m)
      → CountsItems size b
      → (m.iterator_drained ≡ true → left m ≡ [])
      → Follows all mint maxt (record m { buffer = b })
  idle-Follows all mint maxt b m i l a c d = (
    sym (
        i
        ∙ ap (λ k. b.items ++ k) (beyond-inside (after mint) maxt (left m) a)
        ∙ append-nil b.items),
    sym (l ∙ beyond-after maxt (left m) a),
    c,
    d,
  )

  held-beyond :
      (maxt : ℤ) (last : Option (Sample F H)) (rest : List (Reading F H))
      → IsSorted (held last ++ fresh size zero_f is_stale sum rest)
      → holds_beyond size zero_f is_stale sum maxt last ≡ true
      → All (λ q. maxt <ℤ q.t) (held last ++ fresh size zero_f is_stale sum rest)
  unfolding holds_beyond
  held-beyond maxt none rest s e = absurd (cc e)
  held-beyond maxt (some x) rest s e = beyond-All maxt x (fresh size zero_f is_stale sum rest) s e

  pulled-Follows :
      (all : List (Sample F H)) (mint maxt : ℤ) (b : GenericRingBuffer F H) (m : MatrixScanner F H)
      → IsSorted (left m)
      → keep (window mint maxt) all ≡ b.items ++ keep (window mint maxt) (left m)
      → keep (after maxt) all ≡ keep (after maxt) (left m)
      → CountsItems size b
      → b.current_range_start ≡ mint
      → holds_beyond size zero_f is_stale sum maxt m.last_sample ≡ false
      → Follows all mint maxt
          (settle size zero_f is_stale sum m.final_error (
            pull size zero_f is_stale sum maxt
              (push_last size zero_f is_stale sum m.last_sample b)
              m.rest)).0
  pulled-Follows all mint maxt b m s i l c start e =
      let b' : GenericRingBuffer F H = push_last size zero_f is_stale sum m.last_sample b in
      let p : Pulled F H = pull size zero_f is_stale sum maxt b' m.rest in
      let split = offer-split maxt b m.last_sample m.rest s c e in
      settle-Follows all mint maxt m.final_error p.buffer p.beyond p.rest
        (split.0 ∙ ap (λ q. b.items ++ keep (window q maxt) (left m)) start ∙ sym i)
        (split.1 ∙ sym l) split.2 (pull-rest size zero_f is_stale sum maxt b' m.rest)

  pub select-drained :
      (mint maxt evalt : ℤ) (m : MatrixScanner F H)
      → m.iterator_drained ≡ true
      → select_points size zero_f is_stale sum mint maxt evalt m
        ≡ (record m { buffer = reset_buffer size mint evalt m.buffer }, none)
  unfolding select_points
  select-drained mint maxt evalt m e = rw (e, select_points) refl

  pub select-holds :
      (mint maxt evalt : ℤ) (m : MatrixScanner F H)
      → m.iterator_drained ≡ false
      → holds_beyond size zero_f is_stale sum maxt m.last_sample ≡ true
      → select_points size zero_f is_stale sum mint maxt evalt m
        ≡ (record m { buffer = reset_buffer size mint evalt m.buffer }, none)
  unfolding select_points
  select-holds mint maxt evalt m e g = rw (e, g, select_points) refl

  pub select-pulls :
      (mint maxt evalt : ℤ) (m : MatrixScanner F H)
      → m.iterator_drained ≡ false
      → holds_beyond size zero_f is_stale sum maxt m.last_sample ≡ false
      → select_points size zero_f is_stale sum mint maxt evalt m
        ≡ settle size zero_f is_stale sum m.final_error (
            pull size zero_f is_stale sum maxt
              (push_last size zero_f is_stale sum m.last_sample
                (reset_buffer size mint evalt m.buffer))
              m.rest)
  unfolding select_points
  select-pulls mint maxt evalt m e g = rw (e, g, select_points) refl

  -- A step that follows another one of the same series, neither end of its range before that of the
  -- other: when the buffer holds the samples of the series inside the other range (mint, maxt], in
  -- order and not marked stale, the scanner has those beyond maxt to come, and the times of the series
  -- increase, then selectPoints leaves the buffer with the samples inside the new range (mint', maxt']
  -- and those beyond maxt' to come, and the count of samples is that of the buffer's items.
  pub select_points-window :
      (all : List (Sample F H)) (mint maxt mint' maxt' evalt : ℤ) (m : MatrixScanner F H)
      → IsSorted all
      → mint ≤ℤ mint'
      → maxt ≤ℤ maxt'
      → Follows all mint maxt m
      → Follows all mint' maxt' (select_points size zero_f is_stale sum mint' maxt' evalt m).0
  select_points-window all mint maxt mint' maxt' evalt m s h k f =
      let b : GenericRingBuffer F H = reset_buffer size mint' evalt m.buffer in
      let kept =
        reset_buffer-keep size mint' evalt m.buffer
          (subst IsSorted (sym f.0) (IsSorted-keep (window mint maxt) all s)) f.2 in
      let counted : CountsItems size b = kept.1 ∙ ap (total_count size) (sym kept.0) in
      let items : keep (window mint' maxt') all ≡ b.items ++ keep (window mint' maxt') (left m) =
        keep-later mint maxt mint' maxt' all s h k
        ∙ ap₂ (λ i l. i ++ keep (window mint' maxt') l)
            (ap (keep (after mint')) (sym f.0) ∙ sym kept.0) (sym f.1) in
      let later : keep (after maxt') all ≡ keep (after maxt') (left m) =
        sym (after-later maxt maxt' all k) ∙ ap (keep (after maxt')) (sym f.1) in
      let sorted : IsSorted (left m) =
        subst IsSorted (sym f.1) (IsSorted-keep (after maxt) all s) in
      elim (Bool-cases m.iterator_drained) [
        | inl e ↦
            subst (λ o. Follows all mint' maxt' o.0) (sym (select-drained mint' maxt' evalt m e))
              (idle-Follows all mint' maxt' b m items later
                (subst (All (λ q. maxt' <ℤ q.t)) (sym (f.3 e)) tt) counted f.3)
        | inr e ↦ elim (Bool-cases (holds_beyond size zero_f is_stale sum maxt' m.last_sample)) [
          | inl g ↦
              subst (λ o. Follows all mint' maxt' o.0) (sym (select-holds mint' maxt' evalt m e g))
                (idle-Follows all mint' maxt' b m items later
                  (held-beyond maxt' m.last_sample m.rest sorted g) counted f.3)
          | inr g ↦
              subst (λ o. Follows all mint' maxt' o.0) (sym (select-pulls mint' maxt' evalt m e g))
                (pulled-Follows all mint' maxt' b m sorted items later counted
                  (reset-start mint' evalt m.buffer) g)
        ]
      ]
