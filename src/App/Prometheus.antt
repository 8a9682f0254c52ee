-- ===== src/App/Prometheus.antt =====
-- app/prometheus.go: what a scrape sends. A `float64` that is converted from an integer is kept as
-- this integer.
pub mod Collect
use zackup.Base.{
  ℕ, Bool, true, false, Option, none, some, List, [], ◌∷◌, ◌++◌, map, Str, codes, if◌then◌else◌,
}
use zackup.Base.Int.{ℤ, pos, negsuc, quot}
use zackup.Base.Time.{second, unix}
use zackup.App.Metrics.{Metrics, space_used_total}
use zackup.App.State.{State, HostMetrics, export}

pub data ValueType : Type 0 where
  counter gauge untyped : ValueType

-- `float64(i)`, or the number that the 64 bits make
pub data Float : Type 0 where
  of_int : ℤ → Float
  of_bits : ℕ → Float

-- `promExport`, without the description that is built from its first two fields
pub record PromExport : Type 0 where
  pub name : Str
  pub help : Str
  pub typ : ValueType
  pub value : Metrics → Float

abbrev pub last_success : Metrics → Float
last_success m = elim m.succeeded_at [ none ↦ of_int (negsuc 0) | some t ↦ of_int (unix t) ]

abbrev pub last_duration : Metrics → Float
last_duration m = elim m.succeeded_at [
  | none ↦ of_int (negsuc 0)
  | some t ↦ of_int (quot m.success_duration second)
]

abbrev pub bytes : ℕ → Float
bytes n = of_int (pos n)

-- The exports of `init`, in their order.
abbrev pub exporter : List PromExport
exporter =
    record {
      name = codes "last_success";
      help = codes "timestamp of last success";
      typ = counter;
      value = last_success;
    }
    ∷ record {
      name = codes "last_duration";
      help = codes "duration of last successful run in seconds";
      typ = gauge;
      value = last_duration;
    }
    ∷ record {
      name = codes "space_used";
      help = codes "total space used for backups in bytes";
      typ = gauge;
      value = λ m. bytes (space_used_total m);
    }
    ∷ record {
      name = codes "space_used_by_snapshots";
      help = codes "space used by snapshots in bytes";
      typ = gauge;
      value = λ m. bytes m.space_used_by_snapshots;
    }
    ∷ record {
      name = codes "space_used_by_dataset";
      help = codes "space used by dataset in bytes";
      typ = gauge;
      value = λ m. bytes m.space_used_by_dataset;
    }
    ∷ record {
      name = codes "space_used_by_children";
      help = codes "space used by children in bytes";
      typ = gauge;
      value = λ m. bytes m.space_used_by_children;
    }
    ∷ record {
      name = codes "space_used_by_reserved";
      help = codes "space reserved in bytes";
      typ = gauge;
      value = λ m. bytes m.space_used_by_ref_reservation;
    }
    ∷ record {
      name = codes "compression";
      help = codes "compression ratio";
      typ = gauge;
      value = λ m. of_bits m.compression_factor;
    }
    ∷ []

-- A metric that is sent; the one with the version has no host.
pub record Sample : Type 0 where
  pub desc : Str
  pub typ : ValueType
  pub value : Float
  pub host : Option Str

-- `fq_name` is `BuildFQName("zackup", "", name)`.
module _ (fq_name : Str → Str) where
  -- `(*promExport).Desc`, by the name of the description
  abbrev pub desc_of : PromExport → Str
  desc_of f = fq_name f.name

  abbrev pub sample : HostMetrics → PromExport → Sample
  sample m f = record {
    desc = desc_of f;
    typ = f.typ;
    value = f.value m.metrics;
    host = some m.host;
  }

  abbrev pub version_sample : Sample
  version_sample = record {
    desc = codes "zackup_version";
    typ = untyped;
    value = of_int (pos 1);
    host = none;
  }

  -- `Describe`: the names that are sent
  unfoldable pub describe : List PromExport → List Str
  describe [] = codes "zackup_version" ∷ []
  describe (f ∷ e) = desc_of f ∷ describe e

  -- The loop of `Collect` over the indices of the second export. The index into the first is out of
  -- range where that is shorter, which panics. The second part says whether the loop came to its end.
  unfoldable pub collect_hosts :
      List PromExport → List HostMetrics → List HostMetrics → List Sample × Bool
  collect_hosts e metrics [] = ([], true)
  collect_hosts e [] (_ ∷ range) = ([], false)
  collect_hosts e (m ∷ metrics) (_ ∷ range) =
      let (rest, ended) = collect_hosts e metrics range in (map (sample m) e ++ rest, ended)

  abbrev pub with_version : List Sample × Bool → List Sample × Bool
  with_version (samples, true) = (samples ++ (version_sample ∷ []), true)
  with_version (samples, false) = (samples, false)

  -- `Collect`, with the states at its first and at its second export
  unfoldable pub collect : List PromExport → State → State → List Sample × Bool
  unfolding export collect_hosts
  collect e s s' = with_version (collect_hosts e (export s) (export s'))
