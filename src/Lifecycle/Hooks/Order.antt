-- ===== src/Lifecycle/Hooks/Order.antt =====
-- What a hook sends, and where it stops (`dispatchHookResult` of src/orchestrator/lifecycle.ts).
use agentic_collab.Common.{
  subst, codes, ℕ, String, Text, ◌≡◌, refl, sym, ◌∙◌, ap, Bool, true, false, Option, none, some,
  List, [], ◌∷◌, ◌++◌, inl, inr, ltb, min, max, if◌then◌else◌, Bool-cases,
}
use agentic_collab.Lifecycle.Hooks.{
  SendAction, keystroke, text, paste, other, PipelineStep, keystrokes, key, shell, capture, wait,
  HookResult, paste_text, keys, send_actions, pipeline, skip, PaneCommand, Effect, command, sleep,
  store, perform, PaneAnswer, answered, rejected, Dispatch, after_answer, store_value,
  normalize_pipeline_steps, normalize_step, dispatch, send_only, pause, unless_failed,
  send_keys_all, send_action, send_all, paste_and_enter, store_match, run_step, run_steps,
  dispatch_hook_result, send_keys, paste_into, capture_lines,
}

-- What the proxy answers to a command; the match of a capture's expression; the length of a text.
module _ (reply : PaneCommand → PaneAnswer) (match : Text → Text → Option Text)
    (text_length : Text → ℕ) (proxy session : String) where
  abbrev say : PaneCommand → Effect
  say c = command proxy session c

  abbrev waits : Option ℕ → List Effect
  waits none = []
  waits (some ms) = if ltb 0 ms then sleep ms ∷ [] else []

  -- A paste, and Enter after a pause of 100 to 12000 ms by the length of the text.
  abbrev typed : Bool → Text → List Effect
  typed false t = say (paste_into t) ∷ []
  typed true t =
      say (paste_into t)
      ∷ sleep (min (max 100 (text_length t)) 12000)
      ∷ say (send_keys (codes "Enter"))
      ∷ []

  abbrev acted : SendAction → List Effect
  acted (keystroke k ms) = say (send_keys k) ∷ waits ms
  acted (text t ms) = say (send_keys t) ∷ waits ms
  acted (paste t ms) = say (paste_into t) ∷ waits ms
  acted (other ms) = waits ms

  unfoldable pub all_acted : List SendAction → List Effect
  all_acted [] = []
  all_acted (a ∷ actions) = acted a ++ all_acted actions

  abbrev matched : Bool → Text → Text → PaneAnswer → List Effect
  matched named regex var (rejected e) = []
  matched named regex var (answered false pane) = []
  matched named regex var (answered true none) = []
  matched named regex var (answered true (some pane)) = elim (match regex pane) [
    | none ↦ []
    | some value ↦ if named then store var value ∷ [] else []
  ]

  abbrev pub stepped : Bool → Bool → PipelineStep → List Effect
  stepped enter named (keystrokes actions) = all_acted actions
  stepped enter named (key none none) = []
  stepped enter named (key none (some k)) = say (send_keys k) ∷ sleep 100 ∷ []
  stepped enter named (key (some k) legacy) = say (send_keys k) ∷ sleep 100 ∷ []
  stepped enter named (shell c) = typed enter c
  stepped enter named (capture lines regex var) =
      say (capture_lines lines) ∷ matched named regex var (reply (capture_lines lines))
  stepped enter named (wait ms) = sleep ms ∷ []

  unfoldable pub all_stepped : Bool → Bool → List PipelineStep → List Effect
  all_stepped enter named [] = []
  all_stepped enter named (s ∷ ss) = stepped enter named s ++ all_stepped enter named ss

  unfoldable pub all_keys : Option ℕ → List Text → List Effect
  all_keys delay [] = []
  all_keys delay (k ∷ ks) = (say (send_keys k) ∷ waits delay) ++ all_keys delay ks

  unfoldable pub script : Bool → Option ℕ → Bool → HookResult → List Effect
  script enter delay named skip = []
  script enter delay named (keys ks) = all_keys delay ks
  script enter delay named (send_actions actions) = all_acted actions
  script enter delay named (pipeline ss) = all_stepped enter named ss
  script enter delay named (paste_text t) = typed enter t

  abbrev pub answers : List Effect → PaneCommand → PaneAnswer
  answers es c = reply c

  -- So much was done, and nothing rejected.
  abbrev pub at : List Effect → Dispatch
  at es = record { effects = es; error = none }

  abbrev broken : List Effect → Text → Dispatch
  broken es e = record { effects = es; error = some e }

  -- The effects are done in their order, up to the first command that the proxy rejects.
  unfoldable pub play : List Effect → List Effect → Dispatch
  play [] xs = at xs
  play (command p t c ∷ es) xs = elim (reply c) [
    | answered ok content ↦ play es (xs ++ command p t c ∷ [])
    | rejected e ↦ broken (xs ++ command p t c ∷ []) e
  ]
  play (sleep ms ∷ es) xs = play es (xs ++ sleep ms ∷ [])
  play (store var value ∷ es) xs = play es (xs ++ store var value ∷ [])

  abbrev Does : (Dispatch → Dispatch) → List Effect → Type 0
  Does f es = (xs : List Effect) → f (at xs) ≡ play es xs

  -- Nothing is done after an error.
  abbrev Stops : (Dispatch → Dispatch) → Type 0
  Stops f = (xs : List Effect) (e : Text) → f (broken xs e) ≡ broken xs e

  nothing : Does (λ d. d) []
  unfolding play
  nothing xs = refl

  go_on :
      (g : Dispatch → Dispatch) (cs ds : List Effect)
      → Does g ds
      → Stops g
      → (xs : List Effect) → g (play cs xs) ≡ play (cs ++ ds) xs
  unfolding play
  go_on g [] ds h k xs = h xs
  go_on g (command p t c ∷ cs) ds h k xs =
      answered_on (reply c) (go_on g cs ds h k (xs ++ command p t c ∷ []))
    where
      answered_on :
          (o : PaneAnswer)
          → g (play cs (xs ++ command p t c ∷ [])) ≡ play (cs ++ ds) (xs ++ command p t c ∷ [])
          → g (elim o [
            | answered ok content ↦ play cs (xs ++ command p t c ∷ [])
            | rejected e ↦ broken (xs ++ command p t c ∷ []) e
          ])
            ≡ elim o [
              | answered ok content ↦ play (cs ++ ds) (xs ++ command p t c ∷ [])
              | rejected e ↦ broken (xs ++ command p t c ∷ []) e
            ]
      answered_on (answered ok content) q = q
      answered_on (rejected e) q = k (xs ++ command p t c ∷ []) e
  go_on g (sleep ms ∷ cs) ds h k xs = go_on g cs ds h k (xs ++ sleep ms ∷ [])
  go_on g (store var value ∷ cs) ds h k xs = go_on g cs ds h k (xs ++ store var value ∷ [])

  first_then :
      (f g : Dispatch → Dispatch) (cs ds : List Effect)
      → Does f cs
      → Does g ds
      → Does (λ d. unless_failed g (f d)) (cs ++ ds)
  first_then f g cs ds hf hg xs =
      ap (unless_failed g) (hf xs) ∙ go_on (unless_failed g) cs ds hg (λ ys e. refl) xs

  pause-waits : (ms : Option ℕ) → Does (pause ms) (waits ms)
  unfolding pause play
  pause-waits none xs = refl
  pause-waits (some ms) xs = elim (Bool-cases (ltb 0 ms)) [ inl e ↦ rw e refl | inr e ↦ rw e refl ]

  abbrev send : PaneCommand → Dispatch → Dispatch
  send c = send_only answers match text_length proxy session c

  -- A command, and what follows where it was answered.
  dispatch-say :
      (c : PaneCommand) (next : Option Text → Dispatch → Dispatch) (es : List Effect)
      → ((ok : Bool) (content : Option Text)
          → reply c ≡ answered ok content
          → Does (next (if ok then content else none)) es)
      → Does (dispatch answers match text_length proxy session c next) (say c ∷ es)
  unfolding dispatch play
  dispatch-say c next es h xs = answer (reply c) refl
    where
      answer :
          (o : PaneAnswer)
          → reply c ≡ o
          → after_answer next o (at (xs ++ say c ∷ [])) ≡ elim o [
            | answered ok content ↦ play es (xs ++ say c ∷ [])
            | rejected e ↦ broken (xs ++ say c ∷ []) e
          ]
      answer (answered ok content) e = h ok content e (xs ++ say c ∷ [])
      answer (rejected m) e = refl

  send-say : (c : PaneCommand) → Does (send c) (say c ∷ [])
  send-say c = dispatch-say c (λ o d. d) [] (λ ok content e. nothing)

  send_keys_all-Stops :
      (delay : Option ℕ) (ks : List Text)
      → Stops (send_keys_all answers match text_length proxy session delay ks)
  unfolding send_keys_all
  send_keys_all-Stops delay [] xs e = refl
  send_keys_all-Stops delay (k ∷ ks) xs e = send_keys_all-Stops delay ks xs e

  send_keys_all-keys :
      (delay : Option ℕ) (ks : List Text)
      → Does (send_keys_all answers match text_length proxy session delay ks) (all_keys delay ks)
  unfolding send_keys_all all_keys
  send_keys_all-keys delay [] xs = nothing xs
  send_keys_all-keys delay (k ∷ ks) xs =
      ap (send_keys_all answers match text_length proxy session delay ks) (
        first_then (send (send_keys k)) (pause delay) (say (send_keys k) ∷ []) (waits delay)
          (send-say (send_keys k)) (pause-waits delay) xs)
      ∙ go_on (send_keys_all answers match text_length proxy session delay ks)
          (say (send_keys k) ∷ waits delay) (all_keys delay ks) (send_keys_all-keys delay ks)
          (send_keys_all-Stops delay ks) xs

  send_action-acted :
      (a : SendAction) → Does (send_action answers match text_length proxy session a) (acted a)
  unfolding send_action
  send_action-acted (keystroke k ms) =
      first_then (send (send_keys k)) (pause ms) (say (send_keys k) ∷ []) (waits ms)
        (send-say (send_keys k)) (pause-waits ms)
  send_action-acted (text t ms) =
      first_then (send (send_keys t)) (pause ms) (say (send_keys t) ∷ []) (waits ms)
        (send-say (send_keys t)) (pause-waits ms)
  send_action-acted (paste t ms) =
      first_then (send (paste_into t)) (pause ms) (say (paste_into t) ∷ []) (waits ms)
        (send-say (paste_into t)) (pause-waits ms)
  send_action-acted (other ms) = pause-waits ms

  send_all-Stops :
      (actions : List SendAction) → Stops (send_all answers match text_length proxy session actions)
  unfolding send_all
  send_all-Stops [] xs e = refl
  send_all-Stops (a ∷ actions) xs e = send_all-Stops actions xs e

  send_all-acted :
      (actions : List SendAction)
      → Does (send_all answers match text_length proxy session actions) (all_acted actions)
  unfolding send_all all_acted
  send_all-acted [] xs = nothing xs
  send_all-acted (a ∷ actions) xs =
      ap (send_all answers match text_length proxy session actions) (send_action-acted a xs)
      ∙ go_on (send_all answers match text_length proxy session actions) (acted a)
          (all_acted actions) (send_all-acted actions) (send_all-Stops actions) xs

  sleep_then :
      (ms : ℕ) (c : PaneCommand) → Does (λ d. send c (perform (sleep ms) d)) (sleep ms ∷ say c ∷ [])
  unfolding play
  sleep_then ms c xs = send-say c (xs ++ sleep ms ∷ [])

  paste-typed :
      (enter : Bool) (t : Text)
      → Does (paste_and_enter answers match text_length proxy session enter t) (typed enter t)
  unfolding paste_and_enter
  paste-typed false t =
      first_then (send (paste_into t)) (λ d. d) (say (paste_into t) ∷ []) []
        (send-say (paste_into t)) nothing
  paste-typed true t =
      first_then (send (paste_into t)) _ (say (paste_into t) ∷ []) _ (send-say (paste_into t))
        (sleep_then (min (max 100 (text_length t)) 12000) (send_keys (codes "Enter")))

  store-matched :
      (named : Bool) (regex var : Text) (ok : Bool) (content : Option Text)
      → Does
          (store_match answers match text_length proxy session named regex var
            (if ok then content else none))
          (matched named regex var (answered ok content))
  unfolding store_match
  store-matched named regex var false pane xs = nothing xs
  store-matched named regex var true none xs = nothing xs
  store-matched named regex var true (some pane) xs = kept (match regex pane) xs
    where
      kept :
          (o : Option Text)
          → Does
              (store_value named var o)
              (elim o [ none ↦ [] | some value ↦ if named then store var value ∷ [] else [] ])
      kept none ys = nothing ys
      kept (some value) ys = elim (Bool-cases named) [
        | inl e ↦ rw e (unfold play in refl)
        | inr e ↦ rw e (nothing ys)
      ]

  wait-done : (ms : ℕ) → Does (perform (sleep ms)) (sleep ms ∷ [])
  unfolding play
  wait-done ms xs = refl

  key_then :
      (k : Text)
      → Does
          (λ d. unless_failed (perform (sleep 100)) (send (send_keys k) d))
          (say (send_keys k) ∷ sleep 100 ∷ [])
  key_then k =
      first_then (send (send_keys k)) (perform (sleep 100)) (say (send_keys k) ∷ [])
        (sleep 100 ∷ []) (send-say (send_keys k)) (wait-done 100)

  run_step-stepped :
      (enter named : Bool) (s : PipelineStep)
      → Does
          (run_step answers match text_length proxy session enter named (normalize_step s))
          (stepped enter named s)
  unfolding run_step
  run_step-stepped enter named (keystrokes actions) = send_all-acted actions
  run_step-stepped enter named (key none none) = nothing
  run_step-stepped enter named (key none (some k)) = key_then k
  run_step-stepped enter named (key (some k) legacy) = key_then k
  run_step-stepped enter named (shell c) = paste-typed enter c
  run_step-stepped enter named (capture lines regex var) =
      dispatch-say (capture_lines lines) _ _ (λ ok content e.
        subst
          (λ o.
            Does
              (store_match answers match text_length proxy session named regex var
                (if ok then content else none))
              (matched named regex var o))
          (sym e) (store-matched named regex var ok content))
  run_step-stepped enter named (wait ms) = wait-done ms

  run_steps-Stops :
      (enter named : Bool) (ss : List PipelineStep)
      → Stops (run_steps answers match text_length proxy session enter named ss)
  unfolding run_steps
  run_steps-Stops enter named [] xs e = refl
  run_steps-Stops enter named (s ∷ ss) xs e = run_steps-Stops enter named ss xs e

  run_steps-stepped :
      (enter named : Bool) (ss : List PipelineStep)
      → Does
          (run_steps answers match text_length proxy session enter named
            (normalize_pipeline_steps ss))
          (all_stepped enter named ss)
  unfolding run_steps all_stepped normalize_pipeline_steps
  run_steps-stepped enter named [] xs = nothing xs
  run_steps-stepped enter named (s ∷ ss) xs =
      ap
        (run_steps answers match text_length proxy session enter named
          (normalize_pipeline_steps ss))
        (run_step-stepped enter named s xs)
      ∙ go_on
          (run_steps answers match text_length proxy session enter named
            (normalize_pipeline_steps ss))
          (stepped enter named s) (all_stepped enter named ss) (run_steps-stepped enter named ss)
          (run_steps-Stops enter named (normalize_pipeline_steps ss)) xs

  -- Where the proxy's answer to a command does not depend on what was done before, a hook does
  -- exactly what `script` lists, in that order, to the given session of the given proxy: keys with
  -- their delay, actions with their waits, a text and after a pause Enter, and for a capture the
  -- match where the capture succeeded. It stops at the first command that rejects, with its error.
  pub dispatch_hook_result-script :
      (enter : Bool) (delay : Option ℕ) (named : Bool) (h : HookResult) (xs : List Effect)
      → dispatch_hook_result answers match text_length proxy session enter delay named h (at xs)
        ≡ play (script enter delay named h) xs
  unfolding dispatch_hook_result script
  dispatch_hook_result-script enter delay named skip = nothing
  dispatch_hook_result-script enter delay named (keys ks) = send_keys_all-keys delay ks
  dispatch_hook_result-script enter delay named (send_actions actions) = send_all-acted actions
  dispatch_hook_result-script enter delay named (pipeline ss) = run_steps-stepped enter named ss
  dispatch_hook_result-script enter delay named (paste_text t) = paste-typed enter t
