-- ===== src/Handler/Record.antt =====
-- The record of an operation in internal/controllers/async_requeue.go: what is written is found again.
use krateo_rest_dynamic_cont.Base.{
  ℕ, ◌≡◌, ap, arith, false, List, Option, none, some, Text, text_eq, is_empty, lookup, Result, ok,
  err, err-ne-ok,
}
use krateo_rest_dynamic_cont.Value.{Fields}
use krateo_rest_dynamic_cont.Definition.{AsyncConfig}
use krateo_rest_dynamic_cont.Externals.{Externals}
use krateo_rest_dynamic_cont.Async.Handles.{extract_operation_handle-ne-nil}
use krateo_rest_dynamic_cont.Builder.{RequestConfiguration}
use krateo_rest_dynamic_cont.Handler.{
  Response, Trace, World, State, bind_ok, lift, put_resource, patch_annotations,
}
use krateo_rest_dynamic_cont.Handler.Waiting.{object_of, trigger_handle}
use krateo_rest_dynamic_cont.Handler.Requeue.{
  operation_id_key, operation_action_key, or_blank, async_operation_in_flight, record_patch,
  record_async_operation,
}

-- The annotations after a JSON merge patch.
abbrev pub merged : Option (Option Text) → Option Text → Option Text
merged none old = old
merged (some new) old = new

abbrev pub IsMerge : List (Text × Option Text) → List (Text × Text) → List (Text × Text) → Type 0
IsMerge p old new = (k : Text) → lookup k new ≡ merged (lookup k p) (lookup k old)

put_resource_ok : (r : Result Fields) (t s' : State) → put_resource r t ≡ (ok tt, s') → r ≡ ok s'.mg
put_resource_ok (ok fs) t s' h = ap (λ p. ok (p.1).mg) h
put_resource_ok (err e) t s' h = absurd (err-ne-ok (ap (λ p. p.0) h))

trigger_handle-ne-nil :
    (x : Externals)
    → ((n : ℕ) → is_empty (x.format_float n) ≡ false)
    → (cfg : AsyncConfig) (resp : Response) (id : Text) → trigger_handle x cfg resp ≡ ok id
    → is_empty id ≡ false
unfolding trigger_handle
trigger_handle-ne-nil x formats cfg resp id h =
    extract_operation_handle-ne-nil x formats (object_of resp.body) resp.headers cfg.operation_ref
      id (ground arith)

module _ (w : World)
    (merges : (trace : Trace) (p : List (Text × Option Text)) (mg mg' : Fields)
      → w.patch trace p mg ≡ ok mg'
      → IsMerge p (w.annotations mg) (w.annotations mg')) where
  patched_lookup :
      (p : List (Text × Option Text)) (s s' : State) (k : Text)
      → patch_annotations w p s ≡ (ok tt, s')
      → lookup k (w.annotations s'.mg) ≡ merged (lookup k p) (lookup k (w.annotations s.mg))
  unfolding patch_annotations
  patched_lookup p s s' k h =
      merges s.trace p s.mg s'.mg (put_resource_ok (w.patch s.trace p s.mg) _ s' h) k

  -- An operation that was recorded is found in flight in the resource, under its action and with a
  -- handle that is not empty, if patches merge annotations and no float is formatted as an empty text.
  pub record_async_operation-in_flight :
      (x : Externals)
      → ((n : ℕ) → is_empty (x.format_float n) ≡ false)
      → (cfg : AsyncConfig) (action : Text) (resp : Response) (req : RequestConfiguration)
        (s s' : State)
      → record_async_operation w x cfg action resp req s ≡ (ok tt, s')
      → (id : Text) × (trigger_handle x cfg resp ≡ ok id)
        × (async_operation_in_flight w s'.mg ≡ (id, action))
        × (is_empty id ≡ false)
  unfolding record_async_operation async_operation_in_flight record_patch lookup text_eq
  record_async_operation-in_flight x formats cfg action resp req s s' h =
      let (id, hid, h1) =
        bind_ok (lift (trigger_handle x cfg resp))
          (λ id. patch_annotations w (record_patch w id action req)) s h in
      (
        id,
        hid,
        (λ i. (
          ap or_blank (patched_lookup (record_patch w id action req) s s' operation_id_key h1) i,
          ap or_blank (patched_lookup (record_patch w id action req) s s' operation_action_key h1)
              i,
        )),
        trigger_handle-ne-nil x formats cfg resp id hid,
      )
