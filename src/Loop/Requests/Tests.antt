-- ===== src/Loop/Requests/Tests.antt =====
-- Requests at concrete inputs. Seconds are whole here.
use pipee.Base.{ℕ, ◌*◌, ◌≡◌, refl, true, false, none, some, [], leb, ◌&&◌, if◌then◌else◌, ok, err}
use pipee.Base.Text.{show}
use pipee.Loop.Model.{Loop, LoopConfig, Fraction, session, project, interval, once, create_loop}
use pipee.Loop.Runtime.{Runtime}
use pipee.Loop.Requests.{
  Numbers, CreateLoopInput, UpdateLoopInput, every, after_delay, dynamic, build_loop,
  build_schedule, build_every, build_once, build_dynamic, updated, invalid_schedule,
}
use pipee.Loop.Requests.Built.{IsNew, build_loop-IsNew}
use pipee.Loop.Requests.Kept.{KeepsIdentity, updated-KeepsIdentity}

abbrev whole : Numbers ℕ
whole = record {
  shown = show;
  safe_ms = λ n. some (n * 1000);
  safe_whole = λ n. some n;
  wakeup_ms = λ n. if leb 60 n && leb n 3600 then some (n * 1000) else none;
}

abbrev rt : Runtime
rt = record { format_to_parts = λ zone instant. []; floor_scaled = λ hash fraction span. 0 }

abbrev half : Fraction
half = record { num = 1; exp = 1 }

abbrev config : LoopConfig
config = record {
  max_loops = 50;
  recurring_max_age_ms = 0;
  recurring_jitter_fraction = half;
  recurring_jitter_cap_ms = 1000;
  check_interval_ms = 1000;
  durable_file_path = ".pi-loop.json";
  time_zone = "UTC";
}

abbrev input : CreateLoopInput ℕ
input = record { prompt = "look"; retention = session; schedule = every 5 false; label = none }

abbrev made : Loop
made =
    interval
      (record {
        id = "x";
        prompt = "look";
        created_at = 100;
        enabled = true;
        manual_cursor = 0;
        label = none;
      })
      session (record { period_ms = 5000; jitter_fraction = half; jitter_cap_ms = 1000 }) none
      (record { due_at = 5100; cursor = 0 })

makes : build_loop whole rt config input "x" 100 ≡ ok made
unfolding build_loop build_schedule build_every create_loop
makes = refl

build_loop-IsNew_example : IsNew whole rt config input input.schedule "x" 100 made
build_loop-IsNew_example = build_loop-IsNew whole rt config input "x" 100 made makes

-- A loop of the project cannot be dynamic.
refuses_dynamic :
    build_loop whole rt config (record input { retention = project; schedule = dynamic }) "x" 100
    ≡ err (invalid_schedule "dynamic project loop")
unfolding build_loop build_schedule build_dynamic
refuses_dynamic = refl

abbrev change : UpdateLoopInput ℕ
change = record {
  id = "x";
  prompt = none;
  label = some (some "desk");
  schedule = some (after_delay 7);
}

abbrev changed : Loop
changed =
    once
      (record {
        id = "x";
        prompt = "look";
        created_at = 100;
        enabled = true;
        manual_cursor = 0;
        label = some "desk";
      })
      session (record { due_at = 7900; cursor = 0 })

updated-KeepsIdentity_example : KeepsIdentity made changed
unfolding updated build_loop build_schedule build_once create_loop
updated-KeepsIdentity_example =
    updated-KeepsIdentity whole rt config change (some (after_delay 7)) made 900 changed refl
