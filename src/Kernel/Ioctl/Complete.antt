-- ===== src/Kernel/Ioctl/Complete.antt =====
-- The handler of IOCTL_GET_DATA of both CPU drivers: in a buffer of the required size it delivers
-- what its procedures give one after the other.
use hardware_monitor.Prelude.{
  subst, false, length-set, ltb, set, suc, take-set, true, All, List, Option, [], ap, append-nil,
  append_assoc, arith, length, length-append, none, refl, some, sym, take, ℕ, ◌*◌, ◌++◌, ◌+◌, ◌<◌,
  ◌^◌, ◌∙◌, ◌∷◌, ◌≡◌, ◌≤◌,
}
use hardware_monitor.Kernel.{u16, u32}
use hardware_monitor.Kernel.Ioctl.{
  add_metrics, add_metric, Collecting, Metric, count_entry, try_add_telemetry_data, added,
}
use hardware_monitor.Driver.{CpuData, data_size, header_size, cpu_vendor_eq}
use hardware_monitor.Kernel.Ioctl.Metrics.{Runs}

module _ {S : Type 0} where
  -- The procedures one after the other, with no buffer: the globals after them and their data.
  unfoldable pub collect : List (Metric S) → S → Option (S × List CpuData)
  collect [] s = some (s, [])
  collect (metric ∷ metrics) s = elim (metric s) [
    | none ↦ none
    | some (s', d) ↦ elim (collect metrics s') [ none ↦ none | some (s'', ds) ↦ some (s'', d ∷ ds) ]
  ]

  -- `c'` is `c` with the data `ds` added, and the globals `s`.
  pub record Fills (c : Collecting S) (s : S) (ds : List CpuData) (c' : Collecting S) : Type 0 where
    pub globals_are : c'.globals ≡ s
    pub same_room : length c'.buffer.data_entries ≡ length c.buffer.data_entries
    pub counted : c'.buf_idx ≡ c.buf_idx + length ds
    pub holds : take c'.buf_idx c'.buffer.data_entries ≡ take c.buf_idx c.buffer.data_entries ++ ds

  pub Fills-nothing : (c : Collecting S) → Fills c c.globals [] c
  Fills-nothing c = record {
    globals_are = refl;
    same_room = refl;
    counted = omega arith;
    holds = sym (append-nil (take c.buf_idx c.buffer.data_entries));
  }

  pub Fills-trans :
      {c c' c'' : Collecting S} {s s' : S} {ds es : List CpuData}
      → Fills c s ds c'
      → Fills c' s' es c''
      → Fills c s' (ds ++ es) c''
  Fills-trans {c} {ds = ds} {es = es} f g = record {
    globals_are = g.globals_are;
    same_room = g.same_room ∙ f.same_room;
    counted = omega (arith, f.counted, g.counted, length-append ds es);
    holds =
        g.holds
        ∙ ap (λ xs. xs ++ es) f.holds
        ∙ append_assoc (take c.buf_idx c.buffer.data_entries) ds es;
  }

  -- What both the buffer and the plain run end with.
  pub record Agrees (cap : ℕ) (metrics : List (Metric S)) (c : Collecting S) (Wf : S → Type 0)
      : Type 0 where
    pub last : S
    pub gives : List CpuData
    pub filled : Collecting S
    pub runs_so : collect metrics c.globals ≡ some (last, gives)
    pub adds_so : add_metrics cap metrics c ≡ added filled
    pub fills : Fills c last gives filled
    pub keeps : Wf last
    pub as_many : length gives ≡ length metrics

  module _ (cap slots : ℕ) (room : header_size + slots * data_size ≤ cap) where
    add_metric-Fills :
        (metric : Metric S) (c : Collecting S) (s : S) (d : CpuData)
        → metric c.globals ≡ some (s, d)
        → length c.buffer.data_entries ≡ slots
        → c.buf_idx + 1 ≤ slots
        → c.buf_idx + 1 < 2 ^ 16
        → (c' : Collecting S) × (add_metric cap metric c ≡ added c') × Fills c s (d ∷ []) c'
    unfolding add_metric try_add_telemetry_data count_entry
    add_metric-Fills metric c s d e same inside small =
        let fits : ltb cap (u32 (header_size + (c.buf_idx + 1) * data_size)) ≡ false =
          ground arith in
        let there : ltb c.buf_idx (length c.buffer.data_entries) ≡ true = ground arith in
        let next : u16 (c.buf_idx + 1) ≡ suc c.buf_idx = omega arith in
        (
          record {
            globals = s;
            buffer = record c.buffer { data_entries = set c.buffer.data_entries c.buf_idx d };
            buf_idx = suc c.buf_idx;
          },
          rw (add_metric, e, try_add_telemetry_data, fits, there, count_entry, next) refl,
          record {
            globals_are = refl;
            same_room = length-set c.buffer.data_entries c.buf_idx d;
            counted = omega arith;
            holds = take-set c.buffer.data_entries c.buf_idx d (omega arith);
          },
        )

    Agrees-cons :
        (Wf : S → Type 0) (metric : Metric S) (metrics : List (Metric S)) (c c' : Collecting S)
        (s : S) (d : CpuData)
        → metric c.globals ≡ some (s, d)
        → add_metric cap metric c ≡ added c'
        → Fills c s (d ∷ []) c'
        → Agrees cap metrics c' Wf
        → Agrees cap (metric ∷ metrics) c Wf
    unfolding add_metrics collect
    Agrees-cons Wf metric metrics c c' s d e e' f ih =
        let then_so =
          subst (λ g. collect metrics g ≡ some (ih.last, ih.gives)) f.globals_are ih.runs_so in
        record {
          last = ih.last;
          gives = d ∷ ih.gives;
          filled = ih.filled;
          runs_so = rw (collect, e, then_so);
          adds_so = rw (add_metrics, e') ih.adds_so;
          fills = Fills-trans f ih.fills;
          keeps = ih.keeps;
          as_many = omega (arith, ih.as_many);
        }

    pub add_metrics-Agrees :
        (Wf : S → Type 0) (metrics : List (Metric S)) (c : Collecting S)
        → All (Runs Wf) metrics
        → Wf c.globals
        → length c.buffer.data_entries ≡ slots
        → c.buf_idx + length metrics ≤ slots
        → c.buf_idx + length metrics < 2 ^ 16
        → Agrees cap metrics c Wf
    unfolding add_metrics collect
    add_metrics-Agrees Wf [] c runs wf same inside small = record {
      last = c.globals;
      gives = [];
      filled = c;
      runs_so = refl;
      adds_so = refl;
      fills = Fills-nothing c;
      keeps = wf;
      as_many = refl;
    }
    add_metrics-Agrees Wf (metric ∷ metrics) c (first, rest) wf same inside small =
        let (s, d, e, wf') = first c.globals wf in
        let (c', e', f) = add_metric-Fills metric c s d e same (omega arith) (omega arith) in
        let one_more : c'.buf_idx ≡ c.buf_idx + 1 = f.counted in
        Agrees-cons Wf metric metrics c c' s d e e' f (
          add_metrics-Agrees Wf metrics c' rest (subst Wf (sym f.globals_are) wf')
            (f.same_room ∙ same) (omega arith) (omega arith))
