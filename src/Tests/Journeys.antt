-- ===== src/Tests/Journeys.antt =====
-- An example of the way of a newcomer.
use ai_inference_platform.Prelude.{◌≡◌, refl, false, none, some, text, arith}
use ai_inference_platform.Errors.{ok}
use ai_inference_platform.Ids.{parse_uuid}
use ai_inference_platform.Session.{empty_world, with_db}
use ai_inference_platform.Orgs.{get_or_create_default_org, or_insert, insert_org, org_by_slug}
use ai_inference_platform.Auth.{user_by_email}
use ai_inference_platform.RefreshTokens.{store_active_refresh_token}
use ai_inference_platform.AuthRouter.{issue_tokens}
use ai_inference_platform.AuthRouter.Register.{
  register, org_for, insert_user, user_clashes, local_user,
}
use ai_inference_platform.RateLimit.{check_rate_limit, token_bucket, live, lesser, refilled, spend}
use ai_inference_platform.CurrentUser.{get_current_user_or_api_key}
use ai_inference_platform.CurrentUser.Bearer.{bearer}
use ai_inference_platform.Admission.{init, enter, leave, locked}
use ai_inference_platform.Inference.{
  stream_complete, relay, consume, after_event, count_content, report, settle, chunk_of,
}
use ai_inference_platform.Completions.{State, chat_completions, admit, get_org_limits, serve_stream}
use ai_inference_platform.Completions.Billing.{IsBilled}
use ai_inference_platform.Journeys.{newcomer, after_registering, newcomer-IsBilled}
use ai_inference_platform.Tests.Tokens.{services, services-IsSound, settings}
use ai_inference_platform.Tests.Registration.{eve, default_org, answer, registered_eve}
use ai_inference_platform.Tests.Service.{env, req, no_buckets}

newcomer-IsBilled_example :
    let w' =
      after_registering services settings 1000 1 2 9 (text "0a") (text "s") eve empty_world in
    let user = newcomer services settings 1 eve default_org false in
    let st : State = record { world = w'; slots = init 2; buckets = no_buckets } in
    (get_current_user_or_api_key services 5000 (some (bearer answer.access_token)) w'
      ≡ (ok user, w'))
    × IsBilled
        (record { org = 2; user = 1; key = none })
        env
        user
        req
        st
        (chat_completions env user req st)
newcomer-IsBilled_example =
    newcomer-IsBilled services settings 1000 1 2 9 (text "0a") (text "s") eve empty_world answer
      default_org false 5000 env req (init 2) no_buckets services-IsSound
      (unfold org_for get_or_create_default_org org_by_slug or_insert insert_org in refl)
      registered_eve (omega arith) (omega arith) (omega arith)
      (unfold with_db register user_by_email org_for get_or_create_default_org or_insert insert_org
          org_by_slug insert_user user_clashes local_user issue_tokens store_active_refresh_token
          chat_completions admit get_org_limits parse_uuid check_rate_limit token_bucket live lesser
          refilled spend serve_stream stream_complete enter leave locked relay consume after_event
          count_content report settle chunk_of in
        (omega arith, tt))
