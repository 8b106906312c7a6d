-- ===== src/Examples/Recording.antt =====
-- A request that fails, with what is recorded and counted of it. The application has no state.
use go_codebase.Prelude.{◌+◌, ◌*◌, ◌≡◌, refl, none, some, [], ◌∷◌}
use go_codebase.Core.Runtime.{reliable}
use go_codebase.Http.Recording.{Request, returned, panicked, State, Handler, Texts, recording}
use go_codebase.Http.Recording.Recorded.{Noted, entered, recording-Noted}
use go_codebase.Http.Recording.Anonymous.{background, Anonymous, recording-Anonymous}
use go_codebase.Http.Metrics.{Metered, Recorder, active, serve_all, requests_like, active_twice}
use go_codebase.Http.Metrics
use go_codebase.Examples.Sample.{counting}

abbrev texts : Texts
texts = record {
  status_text = λ n. "Internal Server Error";
  stack = "goroutine 1";
  query_json = λ q. q;
  parse_uuid = λ s. some 7;
  envelope_size = λ s. 60;
}

abbrev post_todo : Request
post_todo = record {
  method = "POST";
  path = "/api/v1/todos";
  raw_query = "";
  remote_addr = "10.0.0.1";
  user_agent = "curl";
  request_id = "r1";
}

abbrev fresh_server : State (Unit {0})
fresh_server = record {
  db = record { audit_logs = []; error_logs = []; logged = []; unread = "{}"; app = tt };
  tick = 0;
  published = [];
}

abbrev unavailable : Handler (Unit {0})
unavailable c r w = (returned (record { status_code = 503; bytes_written = 60 }), w)

recording-Noted_example :
    Noted post_todo
      (returned (record { status_code = 503; bytes_written = 60 }))
      (entered counting fresh_server)
      (recording (reliable counting) texts "fresh" unavailable background post_todo fresh_server).0
      (recording (reliable counting) texts "fresh" unavailable background post_todo fresh_server).1
recording-Noted_example =
    recording-Noted counting texts "fresh" unavailable post_todo background fresh_server

recording-Anonymous_example :
    Anonymous (recording counting texts "fresh" unavailable background post_todo fresh_server).1.db
recording-Anonymous_example =
    recording-Anonymous counting texts "fresh" post_todo unavailable fresh_server (λ c q v h. h)
      (tt, tt)

abbrev crashing : Metrics.Handler (Unit {0})
crashing r w = (panicked "nil pointer" none, w)

abbrev unmetered : Metered (Unit {0})
unmetered = record { recorder = record { counters = λ k. 0; observed = [] }; tick = 0; app = tt }

active_twice_example :
    (serve_all
        (λ n. n)
        (λ n. "500")
        crashing
        ((post_todo, 2) ∷ (post_todo, 2) ∷ [])
        unmetered).recorder.counters
      (active post_todo)
    ≡ 0 + 2 * requests_like post_todo ((post_todo, 2) ∷ (post_todo, 2) ∷ [])
active_twice_example =
    active_twice (λ n. n) (λ n. "500") crashing post_todo (λ r w. refl)
      ((post_todo, 2) ∷ (post_todo, 2) ∷ []) unmetered
