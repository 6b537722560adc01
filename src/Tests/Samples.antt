-- ===== src/Tests/Samples.antt =====
-- Numbers for floats, and the events, signals and messages that the tests share.
use tezcatl.Base.{
  ℕ, ◌+◌, ◌-◌, ◌*◌, ◌/◌, true, some, List, [], ◌∷◌, Bytes, codes, itoa, ltb, leb, ◌==◌,
  if◌then◌else◌,
}
use tezcatl.Base.Ints.{pos, pos_part}
use tezcatl.Drain.Settle.{Config}
use tezcatl.Model.{Floats, Observation, Signal, Event, log, info, zero_observation}

-- hundredths, as whole numbers
instance abbrev pub nat_floats : Floats ℕ
nat_floats = record {
  lt = ltb;
  le = leb;
  same = ◌==◌;
  add = ◌+◌;
  minus = ◌-◌;
  mul = λ a b. a * b / 100;
  div = λ a b. if b == 0 then 0 else a * 100 / b;
  hundredths = λ n. n;
  of_int = λ i. pos_part i * 100;
  seconds = λ i. pos_part i / 10_000_000;
  to_duration = λ n. pos (n / 100);
  sqrt = λ n. n;
  abs = λ n. n;
  larger = λ a b. if ltb a b then b else a;
  smaller = λ a b. if ltb a b then a else b;
  fixed = λ k n. itoa n;
  general = λ k n. itoa n;
  shortest = itoa;
  plain = itoa;
}

abbrev pub observed : ℕ → Observation ℕ
observed t = record zero_observation { source = codes "app"; modality = log; timestamp = t }

abbrev pub symptom : ℕ → Signal ℕ
symptom t = record {
  kind = codes "log.symptomatic_template";
  modality = log;
  source = codes "app";
  timestamp = t;
  score = 90;
  summary = codes "symptom";
  attributes = [];
}

abbrev pub event_at : Bytes → ℕ → Event ℕ
event_at service t = record {
  id = [];
  kind = codes "anomaly";
  source = service;
  service = service;
  environment = [];
  timestamp = t;
  severity = info;
  confidence = 50;
  summary = [];
  signals = [];
  related_changes = [];
  before = [];
  after = [];
  attributes = [];
}

abbrev pub started : List Bytes
started = codes "worker" ∷ codes "a" ∷ codes "started" ∷ []

abbrev pub restarted : List Bytes
restarted = codes "worker" ∷ codes "b" ∷ codes "started" ∷ []

abbrev pub drain_config : Config ℕ
drain_config = record {
  depth = pos 4;
  sim_th = 40;
  max_children = pos 100;
  max_clusters = pos 2;
  param_str = codes "<*>";
  parametrize_numeric_tokens = some true;
  mask_prefix = codes "<";
  mask_suffix = codes ">";
  max_tokens = pos 32;
}
