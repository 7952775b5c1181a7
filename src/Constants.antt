-- ===== src/Constants.antt =====
-- app/constants.py
use ldb_backend_hack.Base.{ℕ, ◌*◌, String}

abbrev pub nomba_payment_success_event : String
nomba_payment_success_event = "payment_success"

abbrev pub nomba_vact_transfer_type : String
nomba_vact_transfer_type = "vact_transfer"

abbrev pub outbound_event_payment_received : String
outbound_event_payment_received = "customer.payment_received"

abbrev pub reconciliation_credit_full : String
reconciliation_credit_full = "credit_full"

abbrev pub reconciliation_credit_partial : String
reconciliation_credit_partial = "credit_partial"

abbrev pub reconciliation_overpayment : String
reconciliation_overpayment = "overpayment"

abbrev pub reconciliation_quarantine : String
reconciliation_quarantine = "quarantine"

abbrev pub reconciliation_safety_net_match : String
reconciliation_safety_net_match = "safety_net_match"

abbrev pub reconciliation_safety_net_missing : String
reconciliation_safety_net_missing = "safety_net_missing"

abbrev pub suspense_misdirected : String
suspense_misdirected = "misdirected"

abbrev pub suspense_closed_account : String
suspense_closed_account = "closed_account"

abbrev pub nomba_token_cache_key : String
nomba_token_cache_key = "nomba:oauth:access_token"

abbrev pub nomba_token_ttl_seconds : ℕ
nomba_token_ttl_seconds = 55 * 60
