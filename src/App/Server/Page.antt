-- ===== src/App/Server/Page.antt =====
-- What the overview page leaves of the state, app/server.go.
use zackup.Base.{
  true, Option, none, some, [], ◌∷◌, Str, str_eq, if◌then◌else◌, ◌≡◌, refl, ◌∙◌, ap, All,
  Bool-cases, inl, inr,
}
use zackup.Base.Dict.{Dict, lookup}
use zackup.Base.Time.{Time, is_zero}
use zackup.App.Metrics.{Metrics}
use zackup.App.State.{State}
use zackup.App.Server.{
  pointer, Texts, truncate_time, fmt_time, pointed, rendered, render_all, handle_index,
}

-- The pointer is nil, or the instant is a whole second.
abbrev pub IsWhole : Option Time → Type 0
IsWhole none = Unit
IsWhole (some t) = truncate_time t ≡ t

abbrev pub truncated : Option Time → Option Time
truncated none = none
truncated (some t) = some (truncate_time t)

-- The metrics with the instants of the results in whole seconds.
abbrev pub whole : Metrics → Metrics
whole m = record m { succeeded_at = truncated m.succeeded_at; failed_at = truncated m.failed_at }

truncated-IsWhole : (o : Option Time) → IsWhole o → truncated o ≡ o
truncated-IsWhole none _ = refl
truncated-IsWhole (some t) w = ap some w

abbrev pub of_some : (Metrics → Metrics) → Option Metrics → Option Metrics
of_some f none = none
of_some f (some m) = some (f m)

-- What the row of a host leaves of its metrics.
abbrev pub whole_if_started : Metrics → Metrics
whole_if_started m = if is_zero m.started_at then m else whole m

abbrev pub IsWholeEntry : Str × Metrics → Type 0
IsWholeEntry e = IsWhole e.1.succeeded_at × IsWhole e.1.failed_at

module _ (texts : Texts) where
  pointed_lem :
      (o : Option Time) → pointed texts (fmt_time texts (pointer o) true).1 o ≡ truncated o
  unfolding fmt_time
  pointed_lem none = refl
  pointed_lem (some t) = refl

  pub rendered_lem : (m : Metrics) → rendered texts m ≡ whole_if_started m
  unfolding rendered
  rendered_lem m =
      ap (λ (r : Metrics). if is_zero m.started_at then m else r)
        (λ i. record m {
          succeeded_at = pointed_lem m.succeeded_at i;
          failed_at = pointed_lem m.failed_at i;
        })

  lookup-render_all :
      (host : Str) (hosts : Dict Metrics)
      → lookup host (render_all texts hosts) ≡ of_some whole_if_started (lookup host hosts)
  unfolding lookup
  lookup-render_all host [] = refl
  lookup-render_all host ((k, m) ∷ hosts) = elim (Bool-cases (str_eq k host)) [
    | inl e ↦ rw e (ap some (rendered_lem m))
    | inr e ↦ rw e (lookup-render_all host hosts)
  ]

  whole_same : (m : Metrics) → IsWhole m.succeeded_at → IsWhole m.failed_at → whole_if_started m ≡ m
  whole_same m s f = elim (Bool-cases (is_zero m.started_at)) [
    | inl e ↦ rw e
    | inr e ↦ rw e (λ i. record m {
      succeeded_at = truncated-IsWhole m.succeeded_at s i;
      failed_at = truncated-IsWhole m.failed_at f i;
    })
  ]

  render_all_whole :
      (hosts : Dict Metrics) → All IsWholeEntry hosts → render_all texts hosts ≡ hosts
  render_all_whole [] _ = refl
  render_all_whole ((k, m) ∷ hosts) ((a, b), w) =
      λ i. (k, (rendered_lem m ∙ whole_same m a b) i) ∷ render_all_whole hosts w i

  -- Making the overview page truncates, in the state itself, the instants of the last success and
  -- of the last failure of each host that was started to whole seconds, and changes nothing else
  -- of a host that is looked up; where all of these instants are whole seconds, the state is as
  -- before.
  pub handle_index_lem :
      (s : State)
      → ((host : Str)
          → lookup host (handle_index texts s).1.hosts
            ≡ of_some whole_if_started (lookup host s.hosts))
        × (All IsWholeEntry s.hosts → (handle_index texts s).1 ≡ s)
  unfolding handle_index
  handle_index_lem s = (
    λ host. lookup-render_all host s.hosts,
    λ w. ap (λ hosts. record s { hosts = hosts }) (render_all_whole s.hosts w),
  )
