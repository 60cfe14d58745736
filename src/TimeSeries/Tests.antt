-- ===== src/TimeSeries/Tests.antt =====
-- The ring of samples at concrete inputs.
use phpeek_pm.Prelude.{ℕ, ◌≡◌, refl, List, [], ◌∷◌, some, none, pos, negsuc, last_n}
use phpeek_pm.TimeSeries.{
  Floats, ResourceSample, zero_sample, TimeSeriesBuffer, new_time_series_buffer, add, range_from,
  range_limit, get_range, get_last, get_since, size, latest, clear,
}
use phpeek_pm.TimeSeries.Order.{
  IsValid, new_time_series_buffer-IsValid, add_list, add_list-IsValid, chronological,
}
use phpeek_pm.TimeSeries.Ranges.{samples_since, get_range_lem}

abbrev floats : Floats
floats = record { Float = ℕ; zero_float = 0 }

runs : Unit {0}
unfolding new_time_series_buffer add range_from get_range get_last get_since size latest clear
runs = tt

abbrev at : ℕ → ResourceSample floats
at t = record (zero_sample floats) { timestamp = t }

abbrev samples : List (ResourceSample floats)
samples = at 1 ∷ at 2 ∷ at 3 ∷ []

abbrev ring : TimeSeriesBuffer floats
ring = add_list floats (new_time_series_buffer floats (pos 2)) samples

ring-IsValid : IsValid floats ring
ring-IsValid =
    add_list-IsValid floats (new_time_series_buffer floats (pos 2)) samples
      (new_time_series_buffer-IsValid floats (pos 2))

queries :
    let tsb =
      add floats
        (at 3)
        (add floats (at 2) (add floats (at 1) (new_time_series_buffer floats (pos 2)))) in
    (get_last floats (pos 1) tsb ≡ at 3 ∷ [])
    × (get_last floats (negsuc 0) tsb ≡ at 2 ∷ at 3 ∷ [])
    × (get_range floats 3 (pos 9) tsb ≡ at 3 ∷ [])
    × (latest floats tsb ≡ some (at 3))
    × (latest floats (clear floats tsb) ≡ none)
unfolding runs
queries = (refl, refl, refl, refl, refl)

get_range_lem_example :
    get_range floats 3 (pos 9) ring
    ≡ last_n
        (range_limit floats (pos 9) ring.size)
        (samples_since floats 3 (chronological floats ring))
get_range_lem_example = get_range_lem floats 3 (pos 9) ring ring-IsValid
