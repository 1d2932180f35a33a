-- ===== src/Lifecycle/Hooks.antt =====
-- `dispatchHookResult` of src/orchestrator/lifecycle.ts: the commands that a resolved hook sends to
-- a session, and the waits between them. The proxy's answer is a function of what was done so far.
pub mod Order
use agentic_collab.Common.{
  ℕ, ◌+◌, String, Text, codes, Bool, true, false, Option, none, some, List, [], ◌∷◌, ◌++◌, ltb, min,
  max, if◌then◌else◌,
}

-- A send action, by the field that it has, with its `post_wait_ms`; an action with none of the three
-- fields is `other`.
pub data SendAction : Type 0 where
  keystroke text paste : Text → Option ℕ → SendAction
  other : Option ℕ → SendAction

-- A pipeline step as it is read from JSON: the fields `key` and `keystroke` of a keystroke may be
-- missing.
pub data PipelineStep : Type 0 where
  keystrokes : List SendAction → PipelineStep
  key : Option Text → Option Text → PipelineStep
  shell : Text → PipelineStep
  capture : ℕ → Text → Text → PipelineStep
  wait : ℕ → PipelineStep

pub data HookResult : Type 0 where
  paste_text : Text → HookResult
  keys : List Text → HookResult
  send_actions : List SendAction → HookResult
  pipeline : List PipelineStep → HookResult
  skip : HookResult

pub data PaneCommand : Type 0 where
  send_keys : Text → PaneCommand
  paste_into : Text → PaneCommand
  capture_lines : ℕ → PaneCommand

-- What the dispatch did: a command to a proxy's session, a wait, or a match that it stored in a
-- variable of the agent (the writes of such a store are `store_captured` of Single).
pub data Effect : Type 0 where
  command : (proxy session : String) → PaneCommand → Effect
  sleep : ℕ → Effect
  store : (var value : Text) → Effect

pub data PaneAnswer : Type 0 where
  answered : Bool → Option Text → PaneAnswer
  rejected : Text → PaneAnswer

-- The effects so far, and the error of a proxy call that rejected.
pub record Dispatch : Type 0 where
  pub effects : List Effect
  pub error : Option Text

abbrev pub perform : Effect → Dispatch → Dispatch
perform e d = record d { effects = d.effects ++ e ∷ [] }

-- `normalizePipelineSteps`
abbrev pub normalize_step : PipelineStep → PipelineStep
normalize_step (keystrokes actions) = keystrokes actions
normalize_step (key (some k) legacy) = key (some k) legacy
normalize_step (key none (some k)) = key (some k) (some k)
normalize_step (key none none) = key none none
normalize_step (shell c) = shell c
normalize_step (capture lines regex var) = capture lines regex var
normalize_step (wait ms) = wait ms

unfoldable pub normalize_pipeline_steps : List PipelineStep → List PipelineStep
normalize_pipeline_steps [] = []
normalize_pipeline_steps (s ∷ ss) = normalize_step s ∷ normalize_pipeline_steps ss

unfoldable pub pause : Option ℕ → Dispatch → Dispatch
pause none d = d
pause (some ms) d = if ltb 0 ms then perform (sleep ms) d else d

abbrev pub continue_if : Option Text → (Dispatch → Dispatch) → Dispatch → Dispatch
continue_if none f d = f d
continue_if (some e) f d = d

-- The steps after the first error are not taken.
abbrev pub unless_failed : (Dispatch → Dispatch) → Dispatch → Dispatch
unless_failed f d = continue_if d.error f d

abbrev pub after_answer : (Option Text → Dispatch → Dispatch) → PaneAnswer → Dispatch → Dispatch
after_answer next (answered ok content) d = next (if ok then content else none) d
after_answer next (rejected e) d = record d { error = some e }

abbrev pub store_value : Bool → Text → Option Text → Dispatch → Dispatch
store_value named var none d = d
store_value named var (some value) d = if named then perform (store var value) d else d

-- The proxy; the match of a capture's expression in a pane, trimmed; and the length of a text.
module _ (proxy_answer : List Effect → PaneCommand → PaneAnswer) (match : Text → Text → Option Text)
    (text_length : Text → ℕ) (proxy session : String) where
  -- `await ctx.proxyDispatch(…)` and what follows it, which a rejection skips.
  unfoldable pub dispatch : PaneCommand → (Option Text → Dispatch → Dispatch) → Dispatch → Dispatch
  dispatch c next d =
      after_answer next (proxy_answer d.effects c) (perform (command proxy session c) d)

  abbrev pub send_only : PaneCommand → Dispatch → Dispatch
  send_only c d = dispatch c (λ answer d'. d') d

  unfoldable pub send_keys_all : Option ℕ → List Text → Dispatch → Dispatch
  send_keys_all delay [] d = d
  send_keys_all delay (k ∷ ks) d =
      send_keys_all delay ks
        (unless_failed (λ d'. unless_failed (pause delay) (send_only (send_keys k) d')) d)

  unfoldable pub send_action : SendAction → Dispatch → Dispatch
  send_action (keystroke k ms) d = unless_failed (pause ms) (send_only (send_keys k) d)
  send_action (text t ms) d = unless_failed (pause ms) (send_only (send_keys t) d)
  send_action (paste t ms) d = unless_failed (pause ms) (send_only (paste_into t) d)
  send_action (other ms) d = pause ms d

  unfoldable pub send_all : List SendAction → Dispatch → Dispatch
  send_all [] d = d
  send_all (a ∷ actions) d = send_all actions (unless_failed (send_action a) d)

  -- `Math.min(Math.max(100, length), 12000)`
  abbrev pub ingestion_delay : Text → ℕ
  ingestion_delay t = min (max 100 (text_length t)) 12000

  -- A text is pasted without Enter, and Enter follows when the terminal had time for it.
  unfoldable pub paste_and_enter : Bool → Text → Dispatch → Dispatch
  paste_and_enter enter t d =
      unless_failed
        (λ d'.
          if enter
          then send_only (send_keys (codes "Enter")) (perform (sleep (ingestion_delay t)) d')
          else d')
        (send_only (paste_into t) d)

  unfoldable pub store_match : Bool → Text → Text → Option Text → Dispatch → Dispatch
  store_match named regex var none d = d
  store_match named regex var (some pane) d = store_value named var (match regex pane) d

  unfoldable pub run_step : Bool → Bool → PipelineStep → Dispatch → Dispatch
  run_step enter named (keystrokes actions) d = send_all actions d
  run_step enter named (key none legacy) d = d
  run_step enter named (key (some k) legacy) d =
      unless_failed (perform (sleep 100)) (send_only (send_keys k) d)
  run_step enter named (shell c) d = paste_and_enter enter c d
  run_step enter named (capture lines regex var) d =
      dispatch (capture_lines lines) (store_match named regex var) d
  run_step enter named (wait ms) d = perform (sleep ms) d

  unfoldable pub run_steps : Bool → Bool → List PipelineStep → Dispatch → Dispatch
  run_steps enter named [] d = d
  run_steps enter named (s ∷ ss) d =
      run_steps enter named ss (unless_failed (run_step enter named s) d)

  -- `dispatchHookResult`, with `opts.pressEnter`, `opts.keyDelay` and whether there is an
  -- `opts.agentName`.
  unfoldable pub dispatch_hook_result : Bool → Option ℕ → Bool → HookResult → Dispatch → Dispatch
  dispatch_hook_result enter delay named skip d = d
  dispatch_hook_result enter delay named (keys ks) d = send_keys_all delay ks d
  dispatch_hook_result enter delay named (send_actions actions) d = send_all actions d
  dispatch_hook_result enter delay named (pipeline ss) d =
      run_steps enter named (normalize_pipeline_steps ss) d
  dispatch_hook_result enter delay named (paste_text t) d = paste_and_enter enter t d
