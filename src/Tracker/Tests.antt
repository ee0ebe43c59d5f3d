-- ===== src/Tracker/Tests.antt =====
-- A request of src/types.go's tracker that the middleware claims before the handler answers.
use umans_dash_go.Prelude.{◌+◌, ◌≤◌, ◌<◌, ◌≡◌, true, false, [], length}
use umans_dash_go.Tracker.{claim, write_header, begin_write}
use umans_dash_go.Tracker.System.{System, Reach, here, next, claims, write, header}
use umans_dash_go.Tracker.Exclusive.{headers, bodies, Reach-exclusive}

abbrev claimed : System
claimed = record {
  tracker = record { written = true; hijacked = true; aborted = false; wire = [] };
  writing = [];
  flushing = 0;
  claims = 1;
}

Reach-claimed : Reach claimed
unfolding claim write_header begin_write
Reach-claimed = next (next (next here claims) (write [])) (header 200)

Reach-exclusive_example :
    (headers claimed.tracker.wire + claimed.claims ≤ 1)
    × (0 < claimed.claims
        → (bodies claimed.tracker.wire + length claimed.writing ≡ 0)
          × ((begin_write claimed.tracker).1 ≡ false))
Reach-exclusive_example = Reach-exclusive claimed Reach-claimed
