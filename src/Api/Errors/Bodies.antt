-- ===== src/Api/Errors/Bodies.antt =====
-- What the body of an error keeps of the exception's detail, and the id that it names.
use smart_classroom.Prelude.{
  ◌≡◌, ◌≢◌, refl, ◌∙◌, inl, inr, List, [], ◌∷◌, Option, none, some, arith, String, str_eq, eq_iff,
  Bool-cases, true,
}
use smart_classroom.Api.Errors.{
  get, without, or_none, fields, ErrorResponse, Exception, http_body, handle_error,
}
use smart_classroom.Api.Middleware.{Request, LogContext, Outcome, responded, App}
use smart_classroom.Api.Middleware.Stack.{AnswersBy, Visit, answer_of}

module _ {V : Type 0} where
  without-same : (k : String) (d : List (String × V)) → get k (without k d) ≡ none
  unfolding get without
  without-same k [] = refl
  without-same k (item ∷ rest) = elim (Bool-cases (str_eq item.0 k)) [
    | inl e ↦ rw e (without-same k rest)
    | inr e ↦ rw e (rw e (without-same k rest))
  ]

  without-other : (j k : String) (d : List (String × V)) → k ≢ j → get k (without j d) ≡ get k d
  unfolding get without
  without-other j k [] n = refl
  without-other j k (item ∷ rest) n =
      ground (arith, without-other j k rest n, eq_iff item.0 j, eq_iff item.0 k)

  -- A field of the detail that the body has, by its name.
  abbrev pub field : String → Option (List (String × V)) → Option V
  field k none = none
  field k (some d) = get k d

  field-or_none : (k : String) (d : List (String × V)) → field k (or_none d) ≡ get k d
  unfolding get
  field-or_none k [] = refl
  field-or_none k (item ∷ rest) = refl

-- The two keys that the handler takes out.
abbrev pub names : String × String
names = ("error", "message")

error≢message : names.0 ≢ names.1
error≢message q =
    let h : str_eq "error" "message" ≡ true = (eq_iff "error" "message").1 q in
    absurd (ground arith)

module _ {V : Type 0} (str : V → String) (rid : Option String) (d : List (String × V)) where
  rest : List (String × V)
  rest = without "message" (without "error" d)

  -- The body of an HTTPException whose detail is a dict keeps every field of it but `error` and
  -- `message`, with its value, and has neither of these two.
  pub http_body-fields :
      (k : String)
      → k ≢ names.0
      → k ≢ names.1
      → (field k (http_body str rid (fields d)).detail ≡ get k d)
        × (field names.0 (http_body str rid (fields d)).detail ≡ none)
        × (field names.1 (http_body str rid (fields d)).detail ≡ none)
  unfolding http_body rest
  http_body-fields k e m = (
    field-or_none k rest
        ∙ without-other names.1 k (without names.0 d) m
        ∙ without-other names.0 k d e,
    field-or_none names.0 rest
        ∙ without-other names.1 names.0 (without names.0 d) error≢message
        ∙ without-same names.0 d,
    field-or_none names.1 rest ∙ without-same names.1 (without names.0 d),
  )

module _ {V : Type 0} (str : V → String) (digest : String → String)
    (cors : App (ErrorResponse V) → App (ErrorResponse V)) (routes : App (ErrorResponse V))
    (answer : Request → LogContext → Outcome (ErrorResponse V))
    (inside : AnswersBy answer (cors routes)) where
  -- The application inside answers this visit as `register_error_handlers` has it for an exception.
  abbrev pub AnswersError : Exception V → Visit → Type 0
  AnswersError e v =
      let a = handle_error str v.request.request_id_header e in
      answer_of digest answer v
      ≡ responded
          (record { status_code = a.status_code; request_id_header = none; body = a.content })
