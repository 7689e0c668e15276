-- ===== src/Audit/Subscribers/Chained.antt =====
-- The chain under the traffic of both subscribers.
use airport_inspection_platf.Prelude.Json.{Json}
use airport_inspection_platf.Audit.Chain.{genesis_prev_hash}
use airport_inspection_platf.Audit.Chain.Links.{IsChain}
use airport_inspection_platf.Audit.Writer.{append_lem}
use airport_inspection_platf.Audit.Subscribers.{
  AuditLog, AuditMessage, ParsedMessage, handle_parsed, malformed, on_pmessage, parse, parsed,
  type_error,
}
use airport_inspection_platf.Prelude.{
  Bool-cases, List, Option, String, [], if_false, if_true, inl, inr, subst, sym, ◌∷◌,
}

module _ (sha256 : String → String) (stringify : Json → String)
    (json_parse : String → Option Json) where
  handle_parsed-IsChain :
      (p : ParsedMessage) (m : AuditMessage) (log : AuditLog)
      → IsChain sha256 stringify genesis_prev_hash log.rows
      → IsChain sha256 stringify genesis_prev_hash
          (handle_parsed sha256 stringify json_parse p m log).rows
  unfolding handle_parsed
  handle_parsed-IsChain malformed m log h = elim (Bool-cases m.is_transition) [
    | inl t ↦
        subst (λ (l : AuditLog). IsChain sha256 stringify genesis_prev_hash l.rows)
          (sym (if_true m.is_transition _ _ t)) h
    | inr s ↦
        subst (λ (l : AuditLog). IsChain sha256 stringify genesis_prev_hash l.rows)
          (sym (if_false m.is_transition _ _ s)) h
  ]
  handle_parsed-IsChain type_error m log h = h
  handle_parsed-IsChain (parsed input) m log h =
      (append_lem sha256 stringify (λ e. tt) m.refuses input m.random_id m.now log.rows h).0

  abbrev pub handle_all : List AuditMessage → AuditLog → AuditLog
  unfolding on_pmessage
  handle_all [] log = log
  handle_all (m ∷ ms) log = handle_all ms (on_pmessage sha256 stringify json_parse m log)

  -- Whatever messages the two subscribers receive, well-formed or not, and whichever statements
  -- PostgreSQL refuses, rows that were inserted as one chain are one chain after them.
  pub handle_all-IsChain :
      (ms : List AuditMessage) (log : AuditLog)
      → IsChain sha256 stringify genesis_prev_hash log.rows
      → IsChain sha256 stringify genesis_prev_hash (handle_all ms log).rows
  unfolding handle_all on_pmessage
  handle_all-IsChain [] log h = h
  handle_all-IsChain (m ∷ ms) log h =
      handle_all-IsChain ms (on_pmessage sha256 stringify json_parse m log)
        (handle_parsed-IsChain (parse sha256 stringify json_parse m.is_transition m.raw) m log h)
