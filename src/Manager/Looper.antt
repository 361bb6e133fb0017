-- ===== src/Manager/Looper.antt =====
-- src/core/manager/SessionManager.cpp: `runLooper`, over any sequence of responses, and
-- `createSession`, which starts it.
use neo_group_captcha_bot.Common.{◌≡◌, refl, ◌∙◌, true, List, [], ◌∷◌, ◌++◌, nat_eq, int_eq, arith}
use neo_group_captcha_bot.Td.{Response}
use neo_group_captcha_bot.State.{World}
use neo_group_captcha_bot.Session.Update.{Env}
use neo_group_captcha_bot.Manager.Frame.{handle_update-Keeps}
use neo_group_captcha_bot.Manager.{
  store_session, call_back, on_found, on_captured, answer_request, deliver, dispatch_object,
  dispatch_response, run_looper, is_returned,
}

dispatch-looper :
    (w : World) (env : Env) (r : Response)
    → (dispatch_response w env r).0.manager.looper_running ≡ w.manager.looper_running
unfolding dispatch_response dispatch_object answer_request call_back on_captured on_found deliver
    store_session
dispatch-looper w env r = grind (arith, handle_update-Keeps)

-- No response stops the loop: as long as every handler returns, a running looper handles every
-- response that it receives, and is still running afterwards; those that come later are handled as
-- if they were the first.
looper_goes_on :
    (w : World) (rs more : List (Env × Response))
    → w.manager.looper_running ≡ true
    → is_returned (run_looper w rs).1 ≡ true
    → ((run_looper w rs).0.manager.looper_running ≡ true)
      × (run_looper w (rs ++ more) ≡ run_looper (run_looper w rs).0 more)
unfolding run_looper
looper_goes_on w [] more h e = (h, refl)
looper_goes_on w ((env, r) ∷ rest) more h e =
    let w1 = (dispatch_response w env r).0 in
    let on : w1.manager.looper_running ≡ true = dispatch-looper w env r ∙ h in
    ground (arith, looper_goes_on w1 rest more on)
