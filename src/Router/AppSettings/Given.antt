-- ===== src/Router/AppSettings/Given.antt =====
-- What `parseApplication` sets whether or not defaults are asked for.
use shiny_server.Prelude.{
  ◌≡◌, ◌≢◌, refl, sym, ap, ◌∙◌, Bool, true, false, List, [], ◌∷◌, Option, none, some, Text, codes,
  text_eq, arith, walked_eq,
}
use shiny_server.Prelude.Dict.{lookup}
use shiny_server.Config.Schema.Results.{passes_is, passes, >>=-eq-passes}
use shiny_server.Config.Schema.Apply.{Arg}
use shiny_server.Router.AppSettings.{
  Settings, Scope, Application, number, value_in, text_in, flag_in, number_in, names_in, defaults,
  set_number, set_flag, set_mode, set_frame_options, set_python, set_protocols, push_names,
  set_websockets, set_bookmarks, scheduler_of, parse_application,
}
use shiny_server.Router.AppSettings.Kept.{
  Same, number-Same, flag-Same, frame-Same, python-Same, protocols-Same, websockets-Same,
  bookmarks-Same, set_mode-StoresMode, StoresMode-Same, HasMode, StoresMode-HasMode,
}

module _ {F : Type 0} where
  timed : Scope F → Bool → Settings F
  unfolding value_in number_in set_number defaults
  timed scope provide =
      set_number false (codes "initTimeout")
        (number_in (value_in scope (codes "app_init_timeout") (codes "timeout")))
        (set_number true (codes "idleTimeout")
          (number_in (value_in scope (codes "app_idle_timeout") (codes "timeout")))
          (defaults provide))

  logged : Scope F → Bool → Settings F
  unfolding timed value_in flag_in set_flag
  logged scope provide =
      set_flag true (codes "preserveLogs")
        (flag_in (value_in scope (codes "preserve_logs") (codes "enabled"))) (timed scope provide)

  flagged : Scope F → Settings F → Settings F
  unfolding value_in flag_in set_flag set_python
  flagged scope s = set_python (scope (codes "python")) (
      set_flag false (codes "sanitizeErrors")
        (flag_in (value_in scope (codes "sanitize_errors") (codes "enabled")))
        (set_flag false (codes "reconnect")
          (flag_in (value_in scope (codes "reconnect") (codes "enabled"))) s))

module _ {F : Type 0} (to_upper_case : Text → Text) where
  -- The steps of `parseApplication` that may throw, with the settings behind each of them.
  record Steps (scope : Scope F) (provide : Bool) (a : Application F) : Type 0 where
    s1 : Settings F
    s2 : Settings F
    s3 : Settings F
    s4 : Settings F
    moded :
        set_mode
          (text_in (value_in scope (codes "log_file_mode") (codes "mode")))
          (logged scope provide)
        ≡ passes s1
    framed : set_frame_options to_upper_case (scope (codes "frame_options")) s1 ≡ passes s2
    protocoled :
        set_protocols
          (names_in (value_in scope (codes "disable_protocols") (codes "names")))
          (flagged scope s2)
        ≡ passes s3
    socketed :
        set_websockets (flag_in (value_in scope (codes "disable_websockets") (codes "val"))) s3
        ≡ passes s4
    result :
        record {
          app_defaults =
              set_bookmarks
                (text_in (value_in scope (codes "bookmark_state_dir") (codes "dir")))
                s4;
          simple = scheduler_of (scope (codes "simple_scheduler"));
        }
        ≡ a

  steps :
      (scope : Scope F) (provide : Bool) (a : Application F)
      → parse_application to_upper_case scope provide ≡ passes a
      → Steps scope provide a
  unfolding parse_application logged flagged
  steps scope provide a e =
      let (s1, moded, e1) =
        >>=-eq-passes
          (set_mode (text_in (value_in scope (codes "log_file_mode") (codes "mode")))
            (logged scope provide))
          _ e in
      let (s2, framed, e2) =
        >>=-eq-passes (set_frame_options to_upper_case (scope (codes "frame_options")) s1) _ e1 in
      let (s3, protocoled, e3) =
        >>=-eq-passes
          (set_protocols (names_in (value_in scope (codes "disable_protocols") (codes "names")))
            (flagged scope s2))
          _ e2 in
      let (s4, socketed, e4) =
        >>=-eq-passes
          (set_websockets (flag_in (value_in scope (codes "disable_websockets") (codes "val"))) s3)
          _ e3 in
      record {
        s1 = s1;
        s2 = s2;
        s3 = s3;
        s4 = s4;
        moded = moded;
        framed = framed;
        protocoled = protocoled;
        socketed = socketed;
        result = passes_is _ a e4;
      }

  flagged-Same :
      (k : Text) (scope : Scope F) (s : Settings F)
      → text_eq (codes "python") k ≡ false
      → text_eq (codes "sanitizeErrors") k ≡ false
      → text_eq (codes "reconnect") k ≡ false
      → Same k s (flagged scope s)
  unfolding flagged
  flagged-Same k scope s np ns nr =
      let reconnect = flag_in (value_in scope (codes "reconnect") (codes "enabled")) in
      let sanitize = flag_in (value_in scope (codes "sanitize_errors") (codes "enabled")) in
      let t = set_flag false (codes "reconnect") reconnect s in
      python-Same k (scope (codes "python")) (set_flag false (codes "sanitizeErrors") sanitize t) np
      ∙ flag-Same k false (codes "sanitizeErrors") sanitize t ns
      ∙ flag-Same k false (codes "reconnect") reconnect s nr

  -- Defaults or not, an accepted scope has a log file mode, which is 640 where none is given, and the
  -- settings of a scheduler, with 100 requests at most where no scheduler is given.
  pub parse_application-HasMode :
      (scope : Scope F) (provide : Bool) (a : Application F)
      → parse_application to_upper_case scope provide ≡ passes a
      → HasMode (text_in (value_in scope (codes "log_file_mode") (codes "mode"))) a.app_defaults
        × (scope (codes "simple_scheduler") ≡ none
            → a.simple ≡ ((codes "maxRequests", number 100) ∷ []))
  parse_application-HasMode scope provide a e =
      let t = steps scope provide a e in
      let mode = text_in (value_in scope (codes "log_file_mode") (codes "mode")) in
      let (m, there, octal, default_mode) =
        StoresMode-HasMode mode (logged scope provide) t.s1
          (set_mode-StoresMode mode (logged scope provide) t.s1 t.moded) in
      let k = codes "logFileMode" in
      let kept : lookup k t.s4 ≡ lookup k t.s1 =
        websockets-Same k _ t.s3 t.s4 (unfold text_eq in refl) t.socketed
        ∙ protocols-Same k _ (flagged scope t.s2) t.s3 (unfold text_eq in refl) t.protocoled
        ∙ flagged-Same k scope t.s2 (unfold text_eq in refl) (unfold text_eq in refl)
            (unfold text_eq in refl)
        ∙ frame-Same to_upper_case k _ t.s1 t.s2 (unfold text_eq in refl) t.framed in
      (
        (
          m,
          ap (λ x. lookup k x.app_defaults) (sym t.result)
              ∙ bookmarks-Same k _ t.s4 (unfold text_eq in refl)
              ∙ kept
              ∙ there,
          octal,
          default_mode,
        ),
        λ no_scheduler.
            ap (λ x. x.simple) (sym t.result) ∙ unfold scheduler_of in rw no_scheduler refl,
      )

  logged_empty : (scope : Scope F) → lookup (codes "disableProtocols") (logged scope false) ≡ none
  unfolding logged timed
  logged_empty scope =
      let k = codes "disableProtocols" in
      let idle = number_in (value_in scope (codes "app_idle_timeout") (codes "timeout")) in
      let init = number_in (value_in scope (codes "app_init_timeout") (codes "timeout")) in
      let logs = flag_in (value_in scope (codes "preserve_logs") (codes "enabled")) in
      let start = defaults false in
      let t = set_number true (codes "idleTimeout") idle start in
      flag-Same k true (codes "preserveLogs") logs (set_number false (codes "initTimeout") init t)
        (unfold text_eq in refl)
      ∙ number-Same k false (codes "initTimeout") init t (unfold text_eq in refl)
      ∙ number-Same k true (codes "idleTimeout") idle start (unfold text_eq in refl)
      ∙ unfold defaults lookup in refl

  no_names :
      (v : Option (List Text)) (s t : Settings F) → v ≡ none → set_protocols v s ≡ passes t → s ≡ t
  unfolding set_protocols
  no_names none s t n e = passes_is s t e
  no_names (some given) s t n e = absurd (cc n)

  nothing_pushed :
      (o : Option (Option (Arg F))) (t : Text) (ps : Option (Arg F))
      → o ≡ none
      → push_names o t ≢ passes ps
  unfolding push_names
  nothing_pushed none t ps n e = cc e
  nothing_pushed (some v) t ps n e = cc n

  no_push :
      (v : Option Bool) (s t : Settings F)
      → v ≡ some true
      → lookup (codes "disableProtocols") s ≡ none
      → set_websockets v s ≢ passes t
  unfolding set_websockets push_names
  no_push none s t on absent e = cc on
  no_push (some false) s t on absent e = absurd (ground (arith, on))
  no_push (some true) s t on absent e =
      let (ps, pushed, _) =
        >>=-eq-passes (push_names (lookup (codes "disableProtocols") s) (codes "websocket")) _ e in
      nothing_pushed (lookup (codes "disableProtocols") s) (codes "websocket") ps absent pushed

  -- Without defaults and without disable_protocols, a scope with disable_websockets is never
  -- accepted: the protocol is pushed onto a list that is not there.
  pub parse_application-no_list :
      (scope : Scope F) (a : Application F)
      → flag_in (value_in scope (codes "disable_websockets") (codes "val")) ≡ some true
      → names_in (value_in scope (codes "disable_protocols") (codes "names")) ≡ none
      → parse_application to_upper_case scope false ≢ passes a
  parse_application-no_list scope a on absent e =
      let t = steps scope false a e in
      let k = codes "disableProtocols" in
      let mode = text_in (value_in scope (codes "log_file_mode") (codes "mode")) in
      let none_there : lookup k (flagged scope t.s2) ≡ none =
        flagged-Same k scope t.s2 (unfold text_eq in refl) (unfold text_eq in refl)
          (unfold text_eq in refl)
        ∙ frame-Same to_upper_case k _ t.s1 t.s2 (unfold text_eq in refl) t.framed
        ∙ StoresMode-Same k mode (logged scope false) t.s1 (unfold text_eq in refl)
            (set_mode-StoresMode mode (logged scope false) t.s1 t.moded)
        ∙ logged_empty scope in
      no_push _ t.s3 t.s4 on
        (ap (lookup k) (sym (no_names _ (flagged scope t.s2) t.s3 absent t.protocoled))
          ∙ none_there)
        t.socketed
