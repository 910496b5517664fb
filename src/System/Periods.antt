-- ===== src/System/Periods.antt =====
-- The longest latency of the time between two requests for the status.
use cdfs.Base.{
  ℕ, ◌^◌, ◌<◌, ◌≡◌, refl, sym, ap, ◌∙◌, inl, inr, Option, none, some, Option-cases, List, [], ◌∷◌,
  arith, ltb, if◌then◌else◌, Bytes, All,
}
use cdfs.Session.{Globals, exceeds, raise_max, add_latency}
use cdfs.Session.Latency.{Fits}
use cdfs.System.{SystemCtl, Figures, unset, get_proc_status, get_cpu_usage, status}

-- The counters behind answers with these latencies, with no other session writing at the same time.
abbrev pub add_latencies : List ℕ → Globals → Globals
add_latencies [] g = g
add_latencies (d ∷ ds) g = add_latencies ds (add_latency d [] g)

abbrev pub maximum_from : ℕ → List ℕ → ℕ
maximum_from m [] = m
maximum_from m (d ∷ ds) = maximum_from (if ltb m d then d else m) ds

larger :
    (d : ℕ) (g : Globals)
    → d < 2 ^ 31
    → g.max_latency_us < 2 ^ 31
    → (add_latency d [] g).max_latency_us ≡ (if ltb g.max_latency_us d then d else g.max_latency_us)
unfolding add_latency raise_max exceeds
larger d g small fit = ground arith

max-add_latencies :
    (ds : List ℕ) (g : Globals)
    → All Fits ds
    → g.max_latency_us < 2 ^ 31
    → (add_latencies ds g).max_latency_us ≡ maximum_from g.max_latency_us ds
max-add_latencies [] g h fit = refl
max-add_latencies (d ∷ ds) g (small, h) fit =
    let e = larger d g small fit in
    max-add_latencies ds (add_latency d [] g) h (rw e (bounded d g.max_latency_us small fit))
    ∙ ap (λ m. maximum_from m ds) e
  where
    bounded : (a b : ℕ) → a < 2 ^ 31 → b < 2 ^ 31 → (if ltb b a then a else b) < 2 ^ 31
    bounded a b x y = ground arith

-- What a request for the status does with the longest latency, where it is answered.
record IsRead (g g' : Globals) (f : Figures) : Type 0 where
  reset : g'.max_latency_us ≡ 0
  figure : f.max_latency_us ≡ g.max_latency_us

status-IsRead :
    (proc_status stat self_stat : Bytes) (uptime num_processors : ℕ) (ctl ctl' : SystemCtl)
    (g g' : Globals) (f : Figures)
    → status proc_status stat self_stat uptime num_processors ctl g ≡ (ctl', g', some f)
    → IsRead g g' f
unfolding status
status-IsRead proc_status stat self_stat uptime num_processors ctl ctl' g g' f e =
    elim (Option-cases (get_proc_status proc_status unset)) [
      | inl x ↦ absurd (cc (ap figures (rw (x, status) at e)))
      | inr (p, x) ↦
          elim (Option-cases (get_cpu_usage stat self_stat num_processors ctl.last_cpu)) [
            | inl y ↦ absurd (cc (ap figures (rw (y, status) at (rw (x, status) at e))))
            | inr ((percent, now), y) ↦
                let e' = rw (y, status) at (rw (x, status) at e) in
                record {
                  reset =
                      sym
                        (ap (λ (r : SystemCtl × Globals × Option Figures). r.1.max_latency_us) e');
                  figure = sym (ap (λ (r : SystemCtl × Globals × Option Figures). max_of r.2) e');
                }
          ]
    ]
  where
    figures : SystemCtl × Globals × Option Figures → Option Figures
    figures r = r.2

    max_of : Option Figures → ℕ
    max_of none = f.max_latency_us
    max_of (some x) = x.max_latency_us

-- Between two requests for the status that are answered, with answers of latencies that fit an
-- `int` and do not overlap in between, and whatever the figures were before: the second one gives
-- the longest of these latencies, and 0 where there was no answer.
pub max_latency-status :
    (proc stat self proc' stat' self' : Bytes) (uptime uptime' num_processors : ℕ)
    (ctl ctl' ctl'' : SystemCtl) (g g' g'' : Globals) (f f' : Figures) (ds : List ℕ)
    → status proc stat self uptime num_processors ctl g ≡ (ctl', g', some f)
    → All Fits ds
    → status proc' stat' self' uptime' num_processors ctl' (add_latencies ds g')
      ≡ (ctl'', g'', some f')
    → f'.max_latency_us ≡ maximum_from 0 ds
max_latency-status proc stat self proc' stat' self' uptime uptime' num_processors ctl ctl' ctl'' g
      g' g'' f f' ds first fit second =
    let one = status-IsRead proc stat self uptime num_processors ctl ctl' g g' f first in
    let two =
      status-IsRead proc' stat' self' uptime' num_processors ctl' ctl'' (add_latencies ds g') g'' f'
        second in
    two.figure
    ∙ max-add_latencies ds g' fit (omega (arith, one.reset))
    ∙ ap (λ m. maximum_from m ds) one.reset
