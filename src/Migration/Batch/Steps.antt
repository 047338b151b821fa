-- ===== src/Migration/Batch/Steps.antt =====
-- internal/migration/batch.go: what every read, every answer of the resolver and every registration of
-- a batch row respects, a batch respects.
use baobab_iam.Base.{String, Option, List, [], ◌∷◌}
use baobab_iam.Result.{Result, ok, err}
use baobab_iam.Action.{lift}
use baobab_iam.Action.Along.{
  IsPreorder, Along, Along-pure, Along-raise, Along-lift, Along-if, Along-bind, along_rules,
}
use baobab_iam.Migration.Errors.{Error, is_not_found}
use baobab_iam.Migration.Types.{Row, ProviderBinding}
use baobab_iam.Migration.Service.{Service, register}
use baobab_iam.Migration.Discovery.{SourceBinding, DiscoveryPort, CanonicalResolver}
use baobab_iam.Migration.Batch.Request.{BatchRegisterRequest, BatchRegisterResult, prepared}
use baobab_iam.Migration.Batch.{
  confirm, done_or_wrapped, add_row, by_answer, register_binding, register_bindings, register_batch,
  batch_row,
}

module _ {S : Type 0} (svc : Service S) (resolve_canonical : CanonicalResolver S)
    (digest : List String → String) {R : S → S → Type 0} (order : IsPreorder R)
    (reads : (id : String) → Along R (svc.store.get id))
    (resolves : (source : ProviderBinding) → Along R (resolve_canonical source))
    (adds : (req : BatchRegisterRequest) (id : String) (b : SourceBinding)
        (canonical : Option String)
      → Along R (register svc (batch_row req id b canonical))) where
  confirm-Along :
      (req : BatchRegisterRequest) (b : SourceBinding) (r : Row) (res : BatchRegisterResult)
      → Along R (confirm svc resolve_canonical digest req b r res)
  confirm-Along req b r res = search (along_rules, order, resolves) depth 20

  wrapped-Along :
      (added : Result Error Row) (res : BatchRegisterResult)
      → Along R (done_or_wrapped svc resolve_canonical digest added res)
  wrapped-Along (ok r) res = Along-pure order res
  wrapped-Along (err e) res = Along-raise order _

  add_row-Along :
      (req : BatchRegisterRequest) (b : SourceBinding) (id : String) (res : BatchRegisterResult)
      → Along R (add_row svc resolve_canonical digest req b id res)
  add_row-Along req b id res = search (along_rules, order, resolves, adds, wrapped-Along) depth 20

  by_answer-Along :
      (req : BatchRegisterRequest) (b : SourceBinding) (id : String) (res : BatchRegisterResult)
      (found : Result Error Row)
      → Along R (by_answer svc resolve_canonical digest req b id res found)
  by_answer-Along req b id res (ok r) = confirm-Along req b r res
  by_answer-Along req b id res (err e) =
      Along-if (is_not_found e) _ _ (add_row-Along req b id res) (Along-raise order _)

  binding-Along :
      (req : BatchRegisterRequest) (b : SourceBinding) (res : BatchRegisterResult)
      → Along R (register_binding svc resolve_canonical digest req b res)
  unfolding register_binding
  binding-Along req b res = search (along_rules, order, reads, by_answer-Along) depth 20

  bindings-Along :
      (req : BatchRegisterRequest) (bs : List SourceBinding) (res : BatchRegisterResult)
      → Along R (register_bindings svc resolve_canonical digest req bs res)
  unfolding register_bindings
  bindings-Along req [] res = Along-pure order res
  bindings-Along req (b ∷ rest) res =
      Along-bind order (register_binding svc resolve_canonical digest req b res) _
        (binding-Along req b res) (bindings-Along req rest)

  pub batch-Along :
      (list_source_bindings : DiscoveryPort S) (raw : BatchRegisterRequest)
      → ((id : String) → Along R (list_source_bindings id))
      → Along R (register_batch svc resolve_canonical digest list_source_bindings raw)
  unfolding register_batch
  batch-Along list_source_bindings raw discovers =
      Along-bind order (lift (prepared raw)) _ (Along-lift order (prepared raw)) λ req.
        Along-bind order (list_source_bindings req.batch_id) _ (discovers req.batch_id)
          λ bs. bindings-Along req bs _
