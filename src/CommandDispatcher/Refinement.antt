-- ===== src/CommandDispatcher/Refinement.antt =====
-- Calls of the dispatcher against a map from Device UIDs to handlers.
use esp32_dust_extraction.Common.{
  ◌≡◌, refl, ◌⊎◌, inl, inr, Bool, false, not, Option, none, some, List, [], ◌∷◌, Text, text_eq,
  text_eq_iff, fun_ext, ap, ◌∙◌, find_if, if◌then◌else◌, is_some, arith, Option-cases, Bool-cases,
}
use esp32_dust_extraction.Event.DeviceUid
use esp32_dust_extraction.Command.{Command, target}
use esp32_dust_extraction.CommandDispatcher.Registry.{
  Distinct, handler_of, or_else, find_if-handler_of, handler_of-append, handler_of-erase_first,
  append-Distinct, erase_first-Distinct,
}
use esp32_dust_extraction.CommandDispatcher.{
  DispatchResult, delivered, delivery_failed, unknown_recipient, Recipient, CommandDispatcher,
  has_uid, register_recipient, unregister_recipient, result_of, dispatch,
}

-- The calls that change the registry.
pub data Op (H : Type 0) : Type 0 where
  register : DeviceUid.DeviceUid → Option H → Op H
  unregister : DeviceUid.DeviceUid → Op H

module _ {H : Type 0} where
  abbrev pub step : Op H → CommandDispatcher H → Bool × CommandDispatcher H
  step (register recipient handler) d = register_recipient recipient handler d
  step (unregister recipient) d = unregister_recipient recipient d

  -- A registration is accepted for a handler that can be called and a UID that has none yet. A
  -- removal is accepted for a UID that has one.
  abbrev pub accepts : Op H → (Text → Option H) → Bool
  accepts (register recipient none) m = false
  accepts (register recipient (some handler)) m = not (is_some (m recipient.value))
  accepts (unregister recipient) m = is_some (m recipient.value)

  abbrev pub after : Op H → (Text → Option H) → Text → Option H
  after (register recipient none) m t = m t
  after (register recipient (some handler)) m t =
      or_else (m t) (if text_eq recipient.value t then some handler else none)
  after (unregister recipient) m t = if text_eq recipient.value t then none else m t

  pub step-Distinct :
      (op : Op H) (d : CommandDispatcher H)
      → Distinct d.recipients
      → Distinct (step op d).1.recipients
  unfolding register_recipient unregister_recipient
  step-Distinct (register u none) d h = h
  step-Distinct (register u (some handler)) d h =
      ground (arith, append-Distinct d.recipients (record { uid = u.value; handler = handler }) h)
  step-Distinct (unregister u) d h = ground (arith, erase_first-Distinct d.recipients u.value h)

  step-accepts :
      (op : Op H) (d : CommandDispatcher H) → (step op d).0 ≡ accepts op (handler_of d.recipients)
  unfolding register_recipient unregister_recipient
  step-accepts (register u none) d = refl
  step-accepts (register u (some handler)) d =
      ground (arith, find_if-handler_of d.recipients u.value)
  step-accepts (unregister u) d = ground (arith, find_if-handler_of d.recipients u.value)

  step-after :
      (op : Op H) (d : CommandDispatcher H) (t : Text)
      → Distinct d.recipients
      → handler_of (step op d).1.recipients t ≡ after op (handler_of d.recipients) t
  unfolding register_recipient unregister_recipient
  step-after (register u none) d t h = refl
  step-after (register u (some handler)) d t h = ground (
    arith,
    text_eq_iff u.value t,
    find_if-handler_of d.recipients u.value,
    handler_of-append d.recipients (record { uid = u.value; handler = handler }) t,
  )
  step-after (unregister u) d t h = ground (
    arith,
    text_eq_iff u.value t,
    find_if-handler_of d.recipients u.value,
    handler_of-erase_first d.recipients u.value t h,
  )

  unfoldable pub run : List (Op H) → CommandDispatcher H → List Bool × CommandDispatcher H
  run [] d = ([], d)
  run (op ∷ ops) d =
      let (accepted, d') = step op d in let (results, d'') = run ops d' in (accepted ∷ results, d'')

  -- What the calls return and leave behind, told of the map alone.
  pub run_map : List (Op H) → (Text → Option H) → List Bool × (Text → Option H)
  run_map [] m = ([], m)
  run_map (op ∷ ops) m =
      let (results, m') = run_map ops (after op m) in (accepts op m ∷ results, m')

  run-run_map :
      (ops : List (Op H)) (d : CommandDispatcher H)
      → Distinct d.recipients
      → ((run ops d).0 ≡ (run_map ops (handler_of d.recipients)).0)
        × (handler_of (run ops d).1.recipients ≡ (run_map ops (handler_of d.recipients)).1)
  unfolding run run_map
  run-run_map [] d h = (refl, refl)
  run-run_map (op ∷ ops) d h =
      let (results, view) = run-run_map ops (step op d).1 (step-Distinct op d h) in
      let stepped = fun_ext λ t. step-after op d t h in
      (rw (← stepped, ← step-accepts op d) (ap (◌∷◌ (step op d).0) results), rw (← stepped) view)

  run-Distinct :
      (ops : List (Op H)) (d : CommandDispatcher H)
      → Distinct d.recipients
      → Distinct (run ops d).1.recipients
  unfolding run
  run-Distinct [] d h = h
  run-Distinct (op ∷ ops) d h = run-Distinct ops (step op d).1 (step-Distinct op d h)

  abbrev pub no_recipients : CommandDispatcher H
  no_recipients = record { recipients = [] }

  -- After any calls of `register_recipient` and `unregister_recipient` on a new dispatcher, the
  -- results returned and the handler found for every Device UID are those of a map from UIDs to
  -- handlers, in which a UID that has a handler refuses another.
  pub run-refines :
      (ops : List (Op H)) (uid : Text)
      → ((run ops no_recipients).0 ≡ (run_map ops (λ _. none)).0)
        × (handler_of (run ops no_recipients).1.recipients uid ≡ (run_map ops (λ _. none)).1 uid)
  run-refines ops uid =
      let (results, view) = run-run_map ops no_recipients tt in
      (results, ap (λ (m : Text → Option H). m uid) view)

  -- No calls ever give one Device UID two recipients.
  pub run-no_recipients-Distinct :
      (ops : List (Op H)) → Distinct (run ops no_recipients).1.recipients
  run-no_recipients-Distinct ops = run-Distinct ops no_recipients tt

  find_if_handler :
      (rs : List (Recipient H)) (t : Text) (h : H)
      → handler_of rs t ≡ some h
      → (r : Recipient H) × (find_if (has_uid t) rs ≡ some r) × (r.handler ≡ h)
  find_if_handler [] t h e = cc
  find_if_handler (r ∷ rs) t h e = elim (Bool-cases (text_eq r.uid t)) [
    | inl here ↦ (r, rw here, ground arith)
    | inr later ↦
        let (found, search_eq, handler_eq) = find_if_handler rs t h (rw later at e) in
        (found, rw later search_eq, handler_eq)
  ]

  -- A command goes to the handler of its target alone, which is called once, and the result says
  -- what that handler returned; with no handler nothing is called.
  pub dispatch_lem :
      {S : Type 0} (dispatcher : S → CommandDispatcher H) (call : H → Command → S → Bool × S)
      (command : Command) (s : S)
      → ((handler_of (dispatcher s).recipients (target command) ≡ none)
          × (dispatch dispatcher call command s ≡ (unknown_recipient, s)))
        ⊎ ((h : H) × (handler_of (dispatcher s).recipients (target command) ≡ some h)
            × (dispatch dispatcher call command s
                ≡ (result_of (call h command s).0, (call h command s).1)))
  unfolding dispatch
  dispatch_lem dispatcher call command s =
      elim (Option-cases (handler_of (dispatcher s).recipients (target command))) [
        | inl missing ↦
            inl (
              missing,
              ground (arith, find_if-handler_of (dispatcher s).recipients (target command)),
            )
        | inr (h, found) ↦
            let (r, at, same) =
              find_if_handler (dispatcher s).recipients (target command) h found in
            inr (h, found, rw (at, dispatch, same))
      ]

  -- What becomes of a command whose target has the handler, or none.
  abbrev pub routed :
      {S : Type 0} → (H → Command → S → Bool × S) → Command → S → Option H → DispatchResult × S
  routed call command s none = (unknown_recipient, s)
  routed call command s (some h) =
      let (done, s') = call h command s in (if done then delivered else delivery_failed, s')

  -- After any calls of `register_recipient` and `unregister_recipient` on a new dispatcher, the
  -- results returned are those of a map from UIDs to handlers, in which a UID that has a handler
  -- refuses another, and a command dispatched then calls the handler that the map has for its
  -- target, and no other, with the result that this handler's answer stands for, or calls nothing
  -- and reports an unknown recipient if the map has none.
  pub dispatch-run :
      {S : Type 0} (dispatcher : S → CommandDispatcher H) (call : H → Command → S → Bool × S)
      (ops : List (Op H)) (command : Command) (s : S)
      → dispatcher s ≡ (run ops no_recipients).1
      → let (results, handlers) = run_map ops (λ _. none) in
        ((run ops no_recipients).0 ≡ results)
        × (dispatch dispatcher call command s ≡ routed call command s (handlers (target command)))
  dispatch-run dispatcher call ops command s reached =
      let (results, found) = run-refines ops (target command) in
      let at : handler_of (dispatcher s).recipients (target command)
          ≡ (run_map ops (λ _. none)).1 (target command) =
        ap (λ (d : CommandDispatcher H). handler_of d.recipients (target command)) reached
        ∙ found in
      (
        results,
        rw (← at) (elim (dispatch_lem dispatcher call command s) [
          | inl (missing, e) ↦ rw missing e
          | inr (h, some_h, e) ↦ rw some_h (ground (arith, e))
        ]),
      )
