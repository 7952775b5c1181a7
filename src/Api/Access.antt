-- ===== src/Api/Access.antt =====
-- Which requests get past the door.
use ldb_backend_hack.Base.{
  String, ◌≡◌, refl, ap, ◌==◌, string_eq, ==→eq, Bool-cases, false, none, ◌⊎◌, inl, inr,
}
use ldb_backend_hack.Model.{World, Uuid}
use ldb_backend_hack.Action.{Action, pure, raised, raise, error_response, ◌>>=◌}
use ldb_backend_hack.Action.Steps.{bind_raised}
use ldb_backend_hack.Orm.{Orm}
use ldb_backend_hack.Runtime.{Runtime}
use ldb_backend_hack.Handlers.{Response, failure, handle, respond, api_error_response_handler}
use ldb_backend_hack.Hooks.Signed.{IsSound, IsSigned, nomba_webhook-IsSigned}
use ldb_backend_hack.Api.{
  Outside, Reply, Request, get_health, post_nomba, bearer, Route, customers, accounts, hooks,
  post_customers, get_customer, patch_customer, post_dedicated, get_account,
  get_account_transactions, get_account_statement, post_register, post_simulate,
  get_merchant_from_bearer, customer_controller, account_controller, hook_controller, controller,
  serve, answer,
}

module _ (orm : Orm) (rt : Runtime) (outside : Outside) where
  abbrev refused : Response Reply
  refused = failure (record { status_code = 401; message = "Unauthorized access"; errors = none })

  -- A request for the health changes nothing; one from Nomba is signed, or changes nothing; any other
  -- has the API key, or is answered with 401 and changes nothing.
  abbrev pub IsGuarded : Request → World → Type 0
  IsGuarded get_health w = (answer orm rt outside get_health w).1 ≡ w
  IsGuarded (post_nomba raw_body signature) w =
      IsSigned outside.gate raw_body signature
      ⊎ ((answer orm rt outside (post_nomba raw_body signature) w).1 ≡ w)
  IsGuarded (bearer credentials route) w =
      (credentials ≡ outside.settings.ldb_api_key)
      ⊎ (answer orm rt outside (bearer credentials route) w ≡ (refused, w))

  module _ (credentials : String) (w : World)
      (wrong : (credentials == outside.settings.ldb_api_key) ≡ false) where
    turned_away :
        (f : Uuid → Action Reply)
        → (get_merchant_from_bearer outside.settings credentials >>= f) w
          ≡ (raised (error_response 401 "Unauthorized access" none), w)
    unfolding get_merchant_from_bearer raise
    turned_away f = bind_raised _ _ (rw wrong refl)

    controller_unauthorized :
        (route : Route)
        → controller orm rt outside credentials route w
          ≡ (raised (error_response 401 "Unauthorized access" none), w)
    unfolding controller customer_controller account_controller hook_controller
    controller_unauthorized (customers (post_customers body)) = turned_away _
    controller_unauthorized (customers (get_customer id)) = turned_away _
    controller_unauthorized (customers (patch_customer id body)) = turned_away _
    controller_unauthorized (accounts (post_dedicated body)) = turned_away _
    controller_unauthorized (accounts (get_account id)) = turned_away _
    controller_unauthorized (accounts (get_account_transactions id filters)) = turned_away _
    controller_unauthorized (accounts (get_account_statement id)) = turned_away _
    controller_unauthorized (hooks (post_register body)) = turned_away _
    controller_unauthorized (hooks (post_simulate body)) = turned_away _

-- If `hmac.compare_digest` says yes to equal texts only, then every request is guarded: one for the
-- health changes nothing; one to Nomba's endpoint is signed with a secret that is set, or it changes
-- nothing; and one to any of the other nine routes has the API key as its credentials, or it is
-- answered with status 401 and changes nothing.
pub answer-IsGuarded :
    (orm : Orm) (rt : Runtime) (outside : Outside) (sound : IsSound outside.gate)
    (request : Request) (w : World)
    → IsGuarded orm rt outside request w
unfolding answer serve respond handle api_error_response_handler pure
answer-IsGuarded orm rt outside sound get_health w = refl
answer-IsGuarded orm rt outside sound (post_nomba raw_body signature) w =
    elim (nomba_webhook-IsSigned outside.gate sound orm rt raw_body signature w) [
      | inl (signed, payload, read, run) ↦ inl signed
      | inr (e, same) ↦ inr (ap (λ x. x.1) (bind_raised _ _ same))
    ]
answer-IsGuarded orm rt outside sound (bearer credentials route) w =
    elim (Bool-cases (credentials == outside.settings.ldb_api_key)) [
      | inl right ↦ inl (==→eq credentials outside.settings.ldb_api_key right)
      | inr wrong ↦ inr (rw (controller_unauthorized orm rt outside credentials w wrong route) refl)
    ]
