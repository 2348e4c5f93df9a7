-- ===== src/Providers/Cavoti/Tests.antt =====
-- The Cavoti adapter on a concrete stream.
use cmm_routers.Core.ToolArguments.{trim_start, trim}
use cmm_routers.Providers.Cavoti.Run.{finish_reason}
use cmm_routers.Prelude.OrderedMap.{put}
use cmm_routers.Prelude.OrderedMap.{get}
use Prim.Native.String.{String}
use cmm_routers.Prelude.{
  arith, ℕ, false, Option, none, some, List, [], ◌∷◌, ◌≡◌, refl, map, string_eq, All, subst, sym,
  ◌==◌, if◌then◌else◌,
}
use cmm_routers.Core.Json.{Json, str, num, arr, obj, nil, cons, Fields, end, field}
use cmm_routers.Core.Profile.{agent}
use cmm_routers.Core.Model.{cavoti, RouterRequest}
use cmm_routers.Core.RouterEvent.{
  RouterEvent, text_delta, tool_call_delta, usage, completed, tool_calls,
}
use cmm_routers.Http.Chat.Plain.{plain_reply}
use cmm_routers.Http.Chat.Stream.{stream_chunks}
use cmm_routers.Http.Chat.Stream
use cmm_routers.Http.Chat.Stream.Agreement.{assemble, received, live}
use cmm_routers.Providers.Cavoti.Frames.{malformed, parse_sse_body, yield_frames, drain_last}
use cmm_routers.Providers.Cavoti.Frames.Joined.{joined, parse_sse_body-joined}
use cmm_routers.Providers.Cavoti.Frames.Written.{IsPayload, parse_sse_body-written}
use cmm_routers.Providers.Cavoti.Run.{Pulled, exhausted, run}
use cmm_routers.Providers.Cavoti.Run.Ownership.{IsRun, is_cut, run-IsRun}
use cmm_routers.Providers.Cavoti.Run.Replies.{IsIndexed, run-agrees}

abbrev count : Json → Option ℕ
count (num n) = some n
count _ = none

abbrev request : RouterRequest
request = record {
  request_id = "req-1";
  profile = some agent;
  model = record {
    id = "cavoti/deepseek-v4.1-flash";
    provider = cavoti;
    upstream_model = "deepseek-v4.1-flash";
    display_name = "DeepSeek";
    capability = none;
  };
  messages = [];
  tools = record { name = "look"; description = none; parameters = obj end } ∷ [];
  stream = false;
  max_output_tokens = none;
  reasoning_effort = none;
  tool_choice = none;
  parallel_tool_calls = none;
}

abbrev choice : Fields → Fields
choice fields = field "choices" (arr (cons (obj fields) nil)) end

abbrev fragment : Fields → Fields
fragment call = choice (
    field "delta" (obj (field "tool_calls" (arr (cons (obj (field "index" (num 0) call)) nil)) end))
      end)

abbrev pull : Fields → Pulled
pull fields = record { fields = fields; aborted = false }

abbrev pulled : List Pulled
pulled =
    pull (choice (field "delta" (obj (field "content" (str "one ") end)) end))
    ∷ pull (
        fragment (
          field "id" (str "call-1") (
            field "function" (obj (field "name" (str "look") (field "arguments" (str "{") end)))
              end)))
    ∷ pull (fragment (field "function" (obj (field "arguments" (str "}") end)) end))
    ∷ pull (choice (field "finish_reason" (str "tool_calls") end))
    ∷ pull (field "usage" (obj (field "prompt_tokens" (num 3) end)) end)
    ∷ []

abbrev events : List (RouterEvent ℕ)
events =
    text_delta "one "
    ∷ tool_call_delta 0 "call-1" (some "look") (some "{")
    ∷ tool_call_delta 0 "call-1" (some "look") (some "}")
    ∷ usage (record {
      input_tokens = some 3;
      output_tokens = none;
      reasoning_tokens = none;
      cache_read_tokens = none;
      cost_usd = none;
    })
    ∷ completed tool_calls
    ∷ []

runs : run count count request none pulled (exhausted false) ≡ events
unfolding run get put finish_reason
runs = refl

run-IsRun_example :
    (id_of : ℕ → String) × IsRun
      (is_cut pulled (exhausted false))
      (map (λ tool. tool.name) request.tools)
      id_of
      (run count count request none pulled (exhausted false))
run-IsRun_example = run-IsRun count count request none pulled (exhausted false)

abbrev json_parse : String → Option Json
json_parse text = if text == "{}" then some (obj end) else none

run-agrees_example :
    assemble
      (stream_chunks json_parse []
        (live (run count count request none pulled (exhausted false)))
        Stream.exhausted).0
      ""
      []
    ≡ received (plain_reply json_parse (run count count request none pulled (exhausted false)) none)
unfolding run
run-agrees_example =
    run-agrees json_parse count count request none pulled (exhausted false) (λ id. 0)
      Stream.exhausted refl
      (subst (λ es. All (IsIndexed (λ id. 0)) es) (sym runs) (tt, (refl, (refl, (tt, (tt, tt))))))

-- frames that are cut inside a line, and between the two newlines that end one; the third is malformed
abbrev reads : List String
reads = "data: {" ∷ "}\n" ∷ "\ndata: [DONE]\n\ndata: {\n\n" ∷ []

is_malformed : parse_sse_body json_parse (some (reads, "")) ≡ (end ∷ [], some malformed)
unfolding parse_sse_body trim_start trim
is_malformed = refl

parse_sse_body-joined_example :
    parse_sse_body json_parse (some (reads, ""))
    ≡ yield_frames json_parse (drain_last (joined reads ""))
parse_sse_body-joined_example =
    parse_sse_body-joined json_parse reads "" (ground arith) tt (omega arith)

-- two frames that are cut inside the field's name and between two newlines
abbrev records : List (String × Fields)
records = ("{}", end) ∷ ("{}", end) ∷ []

abbrev pieces : List String
pieces = "dat" ∷ "a: {}\n" ∷ "\ndata: {}\n" ∷ []

is_payload : IsPayload json_parse "{}" end
unfolding trim_start trim
is_payload = record {
  line = (refl, refl, (refl, refl, tt));
  trimmed_start = refl;
  trimmed = refl;
  filled = refl;
  not_done = refl;
  parsed = refl;
}

parse_sse_body-written_example :
    parse_sse_body json_parse (some (pieces, "\n")) ≡ (map (λ r. r.1) records, none)
parse_sse_body-written_example =
    parse_sse_body-written json_parse records pieces "\n" (is_payload, (is_payload, tt)) refl
      (omega arith)
