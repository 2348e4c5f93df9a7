-- ===== src/Providers/Cavoti/Fragments.antt =====
-- src/providers/cavoti/adapter.ts: the fragments of tool calls in the upstream's stream.
use Prim.Native.String.{String}
use cmm_routers.Prelude.{
  ℕ, Option, none, some, List, contains, string_eq, nat_eq, ◌==◌, if◌then◌else◌,
}
use cmm_routers.Prelude.OrderedMap.{OrderedMap, get, put}
use cmm_routers.Core.Json.{Json, num, obj, arr, Fields, prop, prop?, as_string, as_filled}
use cmm_routers.Core.Errors.{
  RouterError, router_error, provider_protocol_error, Result, ok, err, ◌>>=◌, ◌>>◌,
}
use cmm_routers.Core.RouterEvent.{RouterEvent, tool_call_delta}

-- what is known of the call at an upstream index
pub record Known : Type 0 where
  pub id : String
  pub name : Option String

abbrev protocol_error : String → RouterError
protocol_error message = router_error provider_protocol_error message

-- an integer that is not negative
abbrev pub index_of : Option Json → Result ℕ
index_of (some (num n)) = ok n
index_of _ = err (protocol_error "Cavoti tool call fragment has no valid upstream index")

-- the name of a known call after a fragment
abbrev pub renamed : Known → (incoming : Option String) → Result Known
renamed known none = ok known
renamed known (some new) = elim known.name [
  | none ↦ ok (record { id = known.id; name = some new })
  | some old ↦
      if old == new then ok known else err (protocol_error "Cavoti tool name changed mid-stream")
]

-- what is known after a fragment with this id and this name
unfoldable pub resolved : Option Known → (id name : Option String) → Result Known
resolved none none name =
    err (protocol_error "Cavoti tool fragment is missing id for a new upstream index")
resolved none (some id) name = ok (record { id = id; name = name })
resolved (some known) none name = renamed known name
resolved (some known) (some id) name =
    if id == known.id
    then renamed known name
    else err (protocol_error "Cavoti tool id changed mid-stream for one upstream index")

-- a name that is known must be one that the request declares
unfoldable pub check_declared : List String → Option String → Result (Unit {0})
check_declared declared none = ok tt
check_declared declared (some name) =
    if contains declared name
    then ok tt
    else err (protocol_error "Cavoti returned a tool call that was not declared in this request")

module _ {F : Type 0} where
  -- a fragment at a valid index
  unfoldable pub read_call :
      List String → ℕ → Fields → OrderedMap ℕ Known → Result (RouterEvent F × OrderedMap ℕ Known)
  unfolding resolved check_declared
  read_call declared index call calls = do
    let fn = prop call "function"
    known ← resolved (get calls index) (as_filled (prop call "id")) (as_filled (prop? fn "name"))
    check_declared declared known.name
    ok (
      tool_call_delta index known.id known.name (as_string (prop? fn "arguments")),
      put calls index known,
    )

  -- one round of the loop over `tool_calls`; an array is an object without an index
  unfoldable pub read_fragment :
      List String → Json → OrderedMap ℕ Known → Result (RouterEvent F × OrderedMap ℕ Known)
  unfolding read_call
  read_fragment declared (obj call) calls =
      index_of (prop call "index") >>= λ index. read_call declared index call calls
  read_fragment declared (arr items) calls =
      err (protocol_error "Cavoti tool call fragment has no valid upstream index")
  read_fragment declared _ calls = err (protocol_error "Cavoti tool call fragment is not an object")
