-- ===== src/TimeSeries.antt =====
-- internal/metrics/timeseries.go: the ring buffer of resource samples. A time is a number of
-- nanoseconds since Go's zero time. The floating-point readings are values of a type of which
-- nothing is asked but a zero.
mod Tests
pub mod Order
pub mod Reading
pub mod Ranges
use phpeek_pm.Prelude.{
  ℕ, zero, suc, ◌+◌, ◌-◌, ◌%◌, Bool, true, false, ◌||◌, if◌then◌else◌, List, [], ◌∷◌, ℤ, pos, ltb,
  leb, ltb_ℤ, leb_ℤ, ◌==◌, pos_part, length, get_elem?, set, replicate, Option, none, some,
}

-- The types of the float64 and float32 fields, with their zero.
pub record Floats : Type 1 where
  pub Float : Type 0
  pub zero_float : Float

module _ (floats : Floats) where
  pub record ResourceSample : Type 0 where
    pub timestamp : ℕ
    pub cpu_percent : floats.Float
    pub memory_rss_bytes : ℕ
    pub memory_vms_bytes : ℕ
    pub memory_percent : floats.Float
    pub threads : ℤ
    pub file_descriptors : ℤ

  abbrev pub zero_sample : ResourceSample
  zero_sample = record {
    timestamp = 0;
    cpu_percent = floats.zero_float;
    memory_rss_bytes = 0;
    memory_vms_bytes = 0;
    memory_percent = floats.zero_float;
    threads = pos 0;
    file_descriptors = pos 0;
  }

  pub record TimeSeriesBuffer : Type 0 where
    pub samples : List ResourceSample
    pub head : ℕ
    pub size : ℕ
    pub max_samples : ℕ

  unfoldable pub new_time_series_buffer : ℤ → TimeSeriesBuffer
  new_time_series_buffer max_samples =
      let n = if ltb_ℤ max_samples (pos 1) then 720 else pos_part max_samples in
      record { samples = replicate n zero_sample; head = 0; size = 0; max_samples = n }

  unfoldable pub add : ResourceSample → TimeSeriesBuffer → TimeSeriesBuffer
  add sample tsb = record tsb {
    samples = set tsb.samples tsb.head sample;
    head = (tsb.head + 1) % tsb.max_samples;
    size = if ltb tsb.size tsb.max_samples then tsb.size + 1 else tsb.size;
  }

  -- `(tsb.head - 1 - i + tsb.maxSamples) % tsb.maxSamples`: i is below the size, so nothing is cut off.
  abbrev pub index_back : TimeSeriesBuffer → ℕ → ℕ
  index_back tsb i = (tsb.head + tsb.max_samples - (1 + i)) % tsb.max_samples

  -- `sample.Timestamp.After(since) || sample.Timestamp.Equal(since)`
  abbrev pub is_since : ℕ → ResourceSample → Bool
  is_since since sample = ltb since sample.timestamp || sample.timestamp == since

  -- One round. An index out of range, which would panic, is not met in a valid buffer.
  abbrev prepend : ℕ → Option ResourceSample → List ResourceSample → List ResourceSample
  prepend since none result = result
  prepend since (some sample) result = if is_since since sample then sample ∷ result else result

  -- The loop from i on, with the rounds that `i < tsb.size` leaves.
  unfoldable pub range_from :
      ℕ → ℕ → ℕ → ℕ → TimeSeriesBuffer → List ResourceSample → List ResourceSample
  range_from zero i since limit tsb result = result
  range_from (suc rounds) i since limit tsb result =
      let rest =
        range_from rounds (i + 1) since limit tsb
          (prepend since (get_elem? tsb.samples (index_back tsb i)) result) in
      if ltb (length result) limit then rest else result

  -- `if limit <= 0 || limit > tsb.size { limit = tsb.size }`
  abbrev pub range_limit : ℤ → ℕ → ℕ
  range_limit limit size =
      if leb_ℤ limit (pos 0) || ltb_ℤ (pos size) limit then size else pos_part limit

  unfoldable pub get_range : ℕ → ℤ → TimeSeriesBuffer → List ResourceSample
  get_range since limit tsb =
      if tsb.size == 0 then [] else range_from tsb.size 0 since (range_limit limit tsb.size) tsb []

  -- time.Time{} is 0.
  unfoldable pub get_last : ℤ → TimeSeriesBuffer → List ResourceSample
  get_last n tsb = get_range 0 n tsb

  unfoldable pub get_since : ℕ → TimeSeriesBuffer → List ResourceSample
  get_since since tsb = get_range since (pos tsb.max_samples) tsb

  unfoldable pub size : TimeSeriesBuffer → ℕ
  size tsb = tsb.size

  -- The Boolean that is returned beside the sample is false at `none`.
  unfoldable pub latest : TimeSeriesBuffer → Option ResourceSample
  latest tsb = if tsb.size == 0 then none else get_elem? tsb.samples (index_back tsb 0)

  unfoldable pub clear : TimeSeriesBuffer → TimeSeriesBuffer
  clear tsb = record tsb { head = 0; size = 0 }
