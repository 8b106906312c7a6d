-- ===== src/Http/Metrics.antt =====
-- internal/shared/middleware/metrics.go and the recorder of internal/monitoring/infrastructure. A
-- value is a whole number: nanoseconds or bytes. `S` is the state of what lies behind.
use go_codebase.Prelude.{
  ℕ, suc, ◌+◌, ◌*◌, ◌-◌, ◌≡◌, ◌∙◌, String, Bool, ◌&&◌, List, [], ◌∷◌, ◌++◌, ltb, str_eq,
  if◌then◌else◌, arith,
}
use go_codebase.Http.Recording.{Request, Outcome, returned, panicked}

-- The name and the values of the labels method, path and status.
pub record Series : Type 0 where
  pub name : String
  pub method : String
  pub path : String
  pub status : String

abbrev pub same_series : Series → Series → Bool
same_series a b =
    str_eq a.name b.name
    && (str_eq a.method b.method && (str_eq a.path b.path && str_eq a.status b.status))

pub record Recorder : Type 0 where
  pub counters : Series → ℕ
  pub observed : List (Series × ℕ)

unfoldable pub increment_counter : Series → Recorder → Recorder
increment_counter k m = record m {
  counters = λ q. if same_series q k then suc (m.counters q) else m.counters q;
}

unfoldable pub observe_histogram : Series → ℕ → Recorder → Recorder
observe_histogram k v m = record m { observed = m.observed ++ (k, v) ∷ [] }

pub record Metered (S : Type 0) : Type 0 where
  pub recorder : Recorder
  pub tick : ℕ
  pub app : S

abbrev pub Handler : Type 0 → Type 0
Handler S = Request → Metered S → Outcome × Metered S

abbrev pub labelled : (name status : String) → Request → Series
labelled name status r = record { name = name; method = r.method; path = r.path; status = status }

abbrev pub active : Request → Series
active r = labelled "http_requests_active" "0" r

module _ {S : Type 0} where
  abbrev recording : (Recorder → Recorder) → Metered S → Metered S
  recording f w = record w { recorder = f w.recorder }

  -- The deferred call runs on a panic too.
  abbrev deferred : Request → Metered S → Metered S
  deferred r = recording (increment_counter (active r))

  abbrev sized : (name status : String) → (size : ℕ) → Request → Metered S → Metered S
  sized name status size r w =
      if ltb 0 size then recording (observe_histogram (labelled name status r) size) w else w

-- `now` is the clock, `itoa` is strconv.Itoa.
module _ {S : Type 0} (now : ℕ → ℕ) (itoa : ℕ → String) where
  abbrev finished : (start : ℕ) → Request → Outcome × Metered S → Outcome × Metered S
  finished start r (panicked text sent, w) = (panicked text sent, deferred r w)
  finished start r (returned s, w) =
      let status = itoa s.status_code in
      let taken = now w.tick - start in
      let counted =
        recording
          (λ m.
            observe_histogram (labelled "http_request_duration_seconds" status r) taken
              (increment_counter (labelled "http_requests_total" status r) m))
          (record w { tick = suc w.tick }) in
      (returned s, deferred r (sized "http_response_size_bytes" status s.bytes_written r counted))

  -- `content_length` is 0 where the header says nothing, too.
  unfoldable pub metrics : (content_length : ℕ) → Handler S → Handler S
  unfolding increment_counter observe_histogram
  metrics content_length next r w =
      let begun = recording (increment_counter (active r)) (record w { tick = suc w.tick }) in
      finished (now w.tick) r (next r (sized "http_request_size_bytes" "0" content_length r begun))

  -- Requests one after the other, each with the length of its body.
  unfoldable pub serve_all : Handler S → List (Request × ℕ) → Metered S → Metered S
  unfolding metrics
  serve_all next [] w = w
  serve_all next ((r, length) ∷ rs) w = serve_all next rs (metrics length next r w).1

-- The number of requests with the method and the path of `q`.
abbrev pub requests_like : Request → List (Request × ℕ) → ℕ
requests_like q [] = 0
requests_like q ((r, length) ∷ rs) =
    (if str_eq q.method r.method && str_eq q.path r.path then 1 else 0) + requests_like q rs

module _ {S : Type 0} (now : ℕ → ℕ) (itoa : ℕ → String) (next : Handler S) (q : Request) where
  abbrev active_now : Metered S → ℕ
  active_now w = w.recorder.counters (active q)

  active-finished :
      (start : ℕ) (r : Request) (o : Outcome × Metered S)
      → active_now (finished now itoa start r o).1
        ≡ (if str_eq q.method r.method && str_eq q.path r.path then 1 else 0) + active_now o.1
  unfolding increment_counter observe_histogram
  active-finished start r (panicked text sent, w) = ground arith
  active-finished start r (returned s, w) = ground arith

  module _
      (apart : (r : Request) (w : Metered S)
        → (next r w).1.recorder.counters ≡ w.recorder.counters) where
    active-metrics :
        (length : ℕ) (r : Request) (w : Metered S)
        → active_now (metrics now itoa length next r w).1
          ≡ (if str_eq q.method r.method && str_eq q.path r.path then 2 else 0) + active_now w
    unfolding metrics increment_counter observe_histogram
    active-metrics length r w =
        let begun = recording (increment_counter (active r)) (record w { tick = suc w.tick }) in
        let v = sized "http_request_size_bytes" "0" length r begun in
        active-finished (now w.tick) r (next r v) ∙ rw (apart r v) (ground arith)

    -- If what lies behind leaves the counters alone, then after any requests, whether they returned
    -- or panicked, the count of active requests of a method and a path is higher by twice the number
    -- of those requests.
    pub active_twice :
        (rs : List (Request × ℕ)) (w : Metered S)
        → active_now (serve_all now itoa next rs w) ≡ active_now w + 2 * requests_like q rs
    unfolding serve_all
    active_twice [] w = omega arith
    active_twice ((r, length) ∷ rs) w =
        active_twice rs (metrics now itoa length next r w).1
        ∙ ground (arith, active-metrics length r w)
