-- ===== src/Core/ToolAccess/Correlation.antt =====
-- What `inspectToolHistory` finds, against what stands in the messages.
use mathlib.Core.List.{append-nil, append_assoc}
use mathlib.Core.Bool.{◌&&◌}
use cmm_routers.Prelude.{
  String, ◌≡◌, inl, inr, refl, sym, ◌∙◌, Bool, true, false, not, ◌||◌, none, some, List, [], ◌∷◌,
  ◌++◌, ◌==◌, string_eq, map, any, all, contains, arith, if◌then◌else◌, Option-cases, is_some,
}
use cmm_routers.Core.Model.{RouterMessage, RouterToolCall}
use cmm_routers.Core.ToolAccess.History.{
  Scan, scan_message, scan_messages, start, inspect_tool_history, is_tool, is_assistant, is_nil,
}

abbrev calls_in : RouterMessage → List RouterToolCall
calls_in m =
    if is_assistant m.role then (elim m.tool_calls [ none ↦ [] | some calls ↦ calls ]) else []

-- the ids of all calls that assistant messages carry
abbrev pub call_ids_of : List RouterMessage → List String
call_ids_of [] = []
call_ids_of (m ∷ ms) = map (λ c. c.id) (calls_in m) ++ call_ids_of ms

-- a tool message answers one of these calls
abbrev pub answers : List String → RouterMessage → Bool
answers ids m = elim m.tool_call_id [ none ↦ false | some id ↦ not (id == "") && contains ids id ]

scan-call_ids :
    (s : Scan) (ms : List RouterMessage)
    → (scan_messages s ms).call_ids ≡ s.call_ids ++ call_ids_of ms
unfolding scan_messages scan_message
scan-call_ids s [] = sym (append-nil s.call_ids)
scan-call_ids s (m ∷ ms) =
    scan-call_ids (scan_message s m) ms
    ∙ ground (
      arith,
      append_assoc s.call_ids (map (λ c. c.id) (calls_in m)) (call_ids_of ms),
      append-nil s.call_ids,
    )

all-snoc :
    (p : String → Bool) (xs : List String) (x : String) → all p (xs ++ x ∷ []) ≡ (all p xs && p x)
all-snoc p [] x = ground arith
all-snoc p (y ∷ ys) x = ground (arith, all-snoc p ys x)

-- the results of a scan, judged by the call ids `ids`
abbrev answered : List String → Scan → Bool
answered ids s = s.every_result_has_id && all (contains ids) s.result_ids

abbrev pub answers_if_tool : List String → RouterMessage → Bool
answers_if_tool ids m = not (is_tool m.role) || answers ids m

scan_message-answered :
    (ids : List String) (s : Scan) (m : RouterMessage)
    → answered ids (scan_message s m) ≡ (answered ids s && answers_if_tool ids m)
unfolding scan_message
scan_message-answered ids s m = elim (Option-cases m.tool_call_id) [
  | inl none_ ↦ ground arith
  | inr (id, some_) ↦ ground (arith, all-snoc (contains ids) s.result_ids id)
]

scan-answered :
    (ids : List String) (s : Scan) (ms : List RouterMessage)
    → answered ids (scan_messages s ms) ≡ (answered ids s && all (answers_if_tool ids) ms)
unfolding scan_messages
scan-answered ids s [] = ground arith
scan-answered ids s (m ∷ ms) =
    ground (arith, scan-answered ids (scan_message s m) ms, scan_message-answered ids s m)

scan-has_tool_results :
    (s : Scan) (ms : List RouterMessage)
    → (scan_messages s ms).has_tool_results ≡ (s.has_tool_results || any (λ m. is_tool m.role) ms)
unfolding scan_messages scan_message
scan-has_tool_results s [] = ground arith
scan-has_tool_results s (m ∷ ms) = ground (arith, scan-has_tool_results (scan_message s m) ms)

abbrev pub carries_calls : RouterMessage → Bool
carries_calls m = is_assistant m.role && is_some m.tool_calls

scan-has_assistant_calls :
    (s : Scan) (ms : List RouterMessage)
    → (scan_messages s ms).has_assistant_calls ≡ (s.has_assistant_calls || any carries_calls ms)
unfolding scan_messages scan_message
scan-has_assistant_calls s [] = ground arith
scan-has_assistant_calls s (m ∷ ms) = ground (arith, scan-has_assistant_calls (scan_message s m) ms)

no_calls : (ms : List RouterMessage) → any carries_calls ms ≡ false → call_ids_of ms ≡ []
no_calls [] h = refl
no_calls (m ∷ ms) h = ground (arith, no_calls ms)

all_in_nil : (xs : List String) → all (contains []) xs ≡ true → is_nil xs ≡ true
all_in_nil [] h = refl
all_in_nil (x ∷ xs) h = cc

-- The history says whether there are tool results, whether there are assistant calls, and it is
-- correlated exactly if each tool message has an id that is not empty and is the id of a call that
-- an assistant message of the same request carries.
pub inspect_tool_history_lem :
    (messages : List RouterMessage)
    → let h = inspect_tool_history messages in
      (h.has_tool_results ≡ any (λ m. is_tool m.role) messages)
      × (h.has_assistant_calls ≡ any carries_calls messages)
      × (h.correlated ≡ all (answers_if_tool (call_ids_of messages)) messages)
unfolding inspect_tool_history
inspect_tool_history_lem messages = (
  scan-has_tool_results start messages,
  scan-has_assistant_calls start messages,
  ground (
    arith,
    scan-call_ids start messages,
    scan-has_assistant_calls start messages,
    scan-answered (call_ids_of messages) start messages,
    no_calls messages,
    all_in_nil (scan_messages start messages).result_ids,
  ),
)
