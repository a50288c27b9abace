-- ===== src/Kodi/Examples.antt =====
-- The theorems on the Kodi client at concrete values, with a Kodi that never answers.
use homedeck.Base.{
  ℕ, suc, ◌≡◌, refl, true, false, Option, none, some, List, [], ◌∷◌, map, arith, ltb, bytes_eq,
}
use homedeck.Base.Int.{pos}
use homedeck.Base.Text.{codes}
use homedeck.Json.{
  Json, string, object, Fields, field, end, null, max_json_nesting_depth,
  exceeds_json_nesting_depth, try_parse_json_object, string_member, find,
}
use homedeck.Harmony.Backoff.{RetryBackoff}
use homedeck.Kodi.Listing.{parse_list, title_or_label}
use homedeck.Kodi.Target.{MdnsService, Target, resolve_target, deduplicate_instances}
use homedeck.Kodi.Target.Unique.{IsDeduplicated, deduplicate_instances-IsDeduplicated}
use homedeck.Kodi.Target.Chosen.{resolve_target-IsJustified, IsJustified}
use homedeck.Kodi.Client.{Outside, Client, initial_client, LibraryRequest, movies, seasons}
use homedeck.Kodi.Queue.{IsTidy, queue_requests, queue_requests-IsTidy}
use homedeck.Kodi.Notice.{handle_notification, notice_data, fields_or_empty}
use homedeck.Kodi.Notice.Fresh.{identity, Names, on_play_forgets}
use homedeck.Kodi.Call.{call_outcome}
use homedeck.Kodi.Call.Finishes.{Ticks, Answered, call_outcome-Answered}
use homedeck.Kodi.Library.{Limits}
use homedeck.Kodi.Loop.{Loop, top, serving, serve, advance}
use homedeck.Kodi.Loop.Retarget.{IsHeeded, advance-IsHeeded}
use homedeck.Kodi.Paging.{Query, merged_reply, page_loop, page_fuel}
use homedeck.Kodi.Paging.Bounds.{Fits, page_loop_bounded}
use homedeck.Kodi.Paging.Reread.{parse_list-merged_reply}
use homedeck.Http.{json_response}
use homedeck.Kodi.Routes.{status_route, reconnect_route}
use homedeck.Kodi.Sound.{idle-IsPlayable}
use homedeck.Kodi.Sound.Loop.{Steady, here, next, advances, triggers, reachable-Steady}

abbrev play_frame : Fields
play_frame = field (codes "method") (string (codes "Player.OnPlay")) (
    field (codes "params")
      (object (
        field (codes "data")
          (object (
            field (codes "item") (object (field (codes "title") (string (codes "Alien")) end)) end))
          end))
      end)

abbrev stop_frame : Fields
stop_frame = field (codes "method") (string (codes "Player.OnStop")) end

abbrev frame_of : List ℕ → Option Json
frame_of [] = some (object stop_frame)
frame_of (c ∷ cs) = some (object play_frame)

-- The world is a clock.
abbrev quiet : Outside
quiet = record {
  World = ℕ;
  get_setting = λ key w. (none, w);
  browse = λ w. ([], w);
  connect = λ url w. (true, w);
  close = λ w. w;
  is_open = λ w. (false, w);
  send_text = λ text w. (true, w);
  receive_text = λ n w. (none, suc w);
  stop_requested = λ w. (false, w);
  now = λ w. (w, w);
  parse = frame_of;
  dump = λ j. [];
  doubles = record {
    of_integer = λ i. 0;
    less = λ x y. ltb x y;
    equal = λ x y. true;
    times = λ x y. 0;
    truncate = λ x. pos 0;
  };
}

abbrev ticks : Ticks quiet
ticks = record {
  clock = λ w. w;
  read_low = λ w. omega arith;
  read_high = λ w. omega arith;
  after_stop = λ w. omega arith;
  after_open = λ w. omega arith;
  after_receive = λ n w. omega arith;
}

abbrev client : Client quiet
client = record (initial_client quiet 5) { socket = true; next_rpc_id = 41 }

call_outcome-Answered_example :
    Answered quiet ticks 42 (call_outcome quiet 3000 (codes "JSONRPC.Ping") [] 8000 false client).0
call_outcome-Answered_example =
    call_outcome-Answered quiet ticks 3000 (codes "JSONRPC.Ping") [] 8000 false client

abbrev times : Limits
times = record {
  library_busy_after = 3000;
  library_call_timeout = 30000;
  max_pending_command_age = 5000;
}

abbrev delays : RetryBackoff
delays = record { initial_delay = 2000; max_delay = 60000; current_delay = 2000 }

abbrev loop : Loop quiet times
loop = record {
  client = initial_client quiet 5;
  requested = false;
  backoff = delays;
  no_target_backoff = delays;
  phase = top;
}

abbrev asked : Loop quiet times
asked = record loop { requested = true }

reachable-Steady_example : Steady quiet times (advance quiet times 10000 top asked)
reachable-Steady_example =
    reachable-Steady quiet times 10000 {s = loop} {t = advance quiet times 10000 top asked}
      (next (next here triggers) advances)
      (record { volume_bounded = omega arith; playable = idle-IsPlayable; mirrored = refl })

advance-IsHeeded_example :
    IsHeeded quiet times (advance quiet times 10000 (serving 7) asked)
    × ((serve quiet times 10000 7 asked).phase ≡ top)
advance-IsHeeded_example = advance-IsHeeded quiet times 10000 7 (serving 7) asked refl

abbrev bedroom : MdnsService
bedroom = record {
  instance_name = codes "Bedroom";
  hostname = codes "bedroom.local";
  port = 9090;
  address = codes "192.168.1.9";
  txt = (codes "uuid", codes "b1") ∷ [];
}

abbrev bedroom_target : Target
bedroom_target = record { host = codes "192.168.1.9"; port = 9090 }

bedroom_resolved : (resolve_target none none (bedroom ∷ [])).target ≡ some bedroom_target
unfolding resolve_target
bedroom_resolved = refl

resolve_target-IsJustified_example : IsJustified none none (bedroom ∷ []) bedroom_target
resolve_target-IsJustified_example =
    resolve_target-IsJustified none none (bedroom ∷ []) bedroom_target bedroom_resolved

abbrev all_movies : LibraryRequest
all_movies = record { kind = movies; parent_id = pos 0; season = pos 0; path = [] }

abbrev third_show : LibraryRequest
third_show = record { kind = seasons; parent_id = pos 3; season = pos 0; path = [] }

queue_requests-IsTidy_example :
    IsTidy (queue_requests (all_movies ∷ third_show ∷ all_movies ∷ []) [])
queue_requests-IsTidy_example =
    queue_requests-IsTidy (all_movies ∷ third_show ∷ all_movies ∷ []) []
      (record { bounded = omega arith; distinct = tt })

abbrev query : Query
query = record {
  method = codes "VideoLibrary.GetMovies";
  result_key = codes "movies";
  library_busy_after = 3000;
  timeout_ms = 30000;
  max_age = 5000;
}

page_loop_bounded_example : Fits (page_loop quiet (page_fuel quiet) query end 0 [] false client).0
page_loop_bounded_example = page_loop_bounded quiet query end client

abbrev merged_items : List Json
merged_items = object (field (codes "label") (string (codes "Alien")) end) ∷ null ∷ []

shallow : exceeds_json_nesting_depth [] max_json_nesting_depth ≡ false
unfolding exceeds_json_nesting_depth
shallow = refl

parse_list-merged_reply_example :
    parse_list
      (λ text. some (merged_reply (codes "movies") merged_items))
      []
      (codes "movies")
      title_or_label
    ≡ map title_or_label merged_items
parse_list-merged_reply_example =
    parse_list-merged_reply title_or_label
      (λ text. some (merged_reply (codes "movies") merged_items)) (λ j. []) (codes "movies")
      merged_items refl shallow

play_parsed : try_parse_json_object frame_of (1 ∷ []) ≡ some play_frame
unfolding try_parse_json_object
play_parsed = refl

play_named : string_member (codes "method") play_frame ≡ some (codes "Player.OnPlay")
unfolding string_member find bytes_eq
play_named = refl

abbrev play : Names frame_of (1 ∷ []) (codes "Player.OnPlay")
play = record { frame = play_frame; parsed = play_parsed; named = play_named }

abbrev alien : Json
alien = object (field (codes "title") (string (codes "Alien")) end)

has_alien : find (codes "item") (notice_data play.frame) ≡ some alien
unfolding notice_data fields_or_empty find bytes_eq
has_alien = refl

abbrev showing : Client quiet
showing = record client {
  snapshot = record client.snapshot {
    now_playing = record client.snapshot.now_playing { season = pos 2; show_title = codes "Lost" };
  };
}

on_play_forgets_example :
    identity (handle_notification quiet (1 ∷ []) client).snapshot.now_playing
    ≡ identity (handle_notification quiet (1 ∷ []) showing).snapshot.now_playing
on_play_forgets_example = on_play_forgets quiet (1 ∷ []) alien client showing play has_alien

deduplicate_instances-IsDeduplicated_example :
    IsDeduplicated (bedroom ∷ bedroom ∷ []) (deduplicate_instances (bedroom ∷ bedroom ∷ []))
deduplicate_instances-IsDeduplicated_example =
    deduplicate_instances-IsDeduplicated (bedroom ∷ bedroom ∷ [])

-- The status route prints the snapshot; here only its connection state is printed.
abbrev state_of : Json → List ℕ
state_of (object members) = elim (string_member (codes "state") members) [ some t ↦ t | none ↦ [] ]
state_of _ = []

status_shown : status_route state_of client.snapshot ≡ json_response 200 (codes "disconnected")
unfolding status_route json_response string_member find bytes_eq
status_shown = refl

reconnect_asked : (reconnect_route quiet times loop).1 ≡ asked
unfolding reconnect_route
reconnect_asked = refl
