-- ===== src/TaskProgram/Safe.antt =====
-- What a validated program may do.
use mathlib.Core.List.{Memᴰ}
use blueship.Prelude.{
  String, Bool, true, false, none, some, List, [], ◌∷◌, ◌++◌, map, ◌≡◌, ◌≢◌, ◌⊎◌, inl, inr, refl,
  sym, ◌∙◌, ap, arith, All, contains, contains-append, append_assoc, append-nil, str_eq, eq_iff,
  Bool-cases, Option-cases, if◌then◌else◌, reject, and_then-none, reject-none,
}
use blueship.TurnPolicy.Available.{dedupe_strings-contains}
use blueship.TaskProgram.{
  TaskProgramInput, TaskProgram, ProgramError, lookup, check_input, check_inputs,
  check_activation_id, check_activation_ids, check_tool, check_tools, validate_program,
  enabled_tools, requested_tools,
}

some≢none : {e : ProgramError} → some e ≡ none → ⊥
some≢none h = cc

abbrev entry : TaskProgramInput → String × Bool
entry i = (i.id, i.enabled)

abbrev IsOwned : String → Type 0
IsOwned t = str_eq t "message_send" ≡ false

module _ (json_valid : String → Bool) where
  check_input-IsOwned :
      (ids : List (String × Bool)) (i : TaskProgramInput)
      → check_input json_valid ids i ≡ none
      → IsOwned i.tool
  unfolding check_input
  check_input-IsOwned ids i h =
      let (_, a) = and_then-none _ _ h in
      let (_, b) = and_then-none _ _ a in
      let (_, c) = and_then-none _ _ b in
      let (_, d) = and_then-none _ _ c in let (e, _) = and_then-none _ _ d in reject-none _ _ e

  -- Either an error, or the map of the inputs, none of which is owned by the scheduler.
  check_inputs-cases :
      (ids : List (String × Bool)) (is : List TaskProgramInput)
      → ((e : ProgramError) × (check_inputs json_valid ids is ≡ inl e))
        ⊎ ((check_inputs json_valid ids is ≡ inr (ids ++ map entry is))
            × All (λ i. IsOwned i.tool) is)
  unfolding check_inputs
  check_inputs-cases ids [] = inr (ap inr (sym (append-nil ids)), tt)
  check_inputs-cases ids (i ∷ is) = elim (Option-cases (check_input json_valid ids i)) [
    | inr (e, found) ↦ inl (e, rw (found, check_inputs) refl)
    | inl fine ↦ elim (check_inputs-cases (ids ++ entry i ∷ []) is) [
      | inl (e, bad) ↦ inl (e, rw (fine, check_inputs) bad)
      | inr (all, owned) ↦ inr (
        rw (fine, check_inputs) (all ∙ ap inr (append_assoc ids (entry i ∷ []) (map entry is))),
        (check_input-IsOwned ids i fine, owned),
      )
    ]
  ]

check_tools-IsOwned : (seen ts : List String) → check_tools seen ts ≡ none → All IsOwned ts
unfolding check_tools check_tool
check_tools-IsOwned seen [] h = tt
check_tools-IsOwned seen (t ∷ ts) h =
    let (here, rest) = and_then-none _ _ h in
    let (_, a) = and_then-none _ _ here in
    let (_, b) = and_then-none _ _ a in
    let (_, c) = and_then-none _ _ b in (reject-none _ _ c, check_tools-IsOwned (t ∷ seen) ts rest)

-- An enabled input of that id.
abbrev pub IsEnabled : List TaskProgramInput → String → Type 0
IsEnabled is k = (i : TaskProgramInput) × Memᴰ i is × (i.id ≡ k) × (i.enabled ≡ true)

lookup-IsEnabled :
    (is : List TaskProgramInput) (k : String) → lookup (map entry is) k ≡ some true → IsEnabled is k
unfolding lookup
lookup-IsEnabled [] k h = cc
lookup-IsEnabled (i ∷ is) k h = elim (Bool-cases (str_eq i.id k)) [
  | inl e ↦ (i, Memᴰ.head refl, (eq_iff i.id k).0 e, ground arith)
  | inr e ↦
      let (j, m, id, on) = lookup-IsEnabled is k (rw (e, lookup) at h) in (j, Memᴰ.tail m, id, on)
]

check_activation_id-lookup :
    (ids : List (String × Bool)) (seen : List String) (k : String)
    → check_activation_id ids seen k ≡ none
    → lookup ids k ≡ some true
unfolding check_activation_id
check_activation_id-lookup ids seen k h =
    let (_, a) = and_then-none _ _ h in
    let (_, b) = and_then-none _ _ a in
    let (_, c) = and_then-none _ _ b in unfold reject in ground arith

check_activation_ids-IsEnabled :
    (is : List TaskProgramInput) (seen ks : List String)
    → check_activation_ids (map entry is) seen ks ≡ none
    → All (IsEnabled is) ks
unfolding check_activation_ids
check_activation_ids-IsEnabled is seen [] h = tt
check_activation_ids-IsEnabled is seen (k ∷ ks) h =
    let (here, rest) = and_then-none _ _ h in
    (
      lookup-IsEnabled is k (check_activation_id-lookup (map entry is) seen k here),
      check_activation_ids-IsEnabled is (k ∷ seen) ks rest,
    )

record Validated (p : TaskProgram) : Type 0 where
  inputs : All (λ i. IsOwned i.tool) p.inputs
  activation : All (IsEnabled p.inputs) p.activation.input_ids
  tools : All IsOwned p.decision.tools

validate-Validated :
    (json_valid : String → Bool) (p : TaskProgram)
    → validate_program json_valid p ≡ none
    → Validated p
unfolding validate_program
validate-Validated json_valid p h =
    let (_, a) = and_then-none _ _ h in
    let (_, b) = and_then-none _ _ a in
    elim (check_inputs-cases json_valid [] p.inputs) [
      | inl (e, bad) ↦ absurd (some≢none (rw bad at b))
      | inr (all, owned) ↦
          let (_, c) = and_then-none _ _ (rw all at b) in
          let (ids, d) = and_then-none _ _ c in
          let (_, e) = and_then-none _ _ d in
          let (tools, _) = and_then-none _ _ e in
          record {
            inputs = owned;
            activation = check_activation_ids-IsEnabled p.inputs [] p.activation.input_ids ids;
            tools = check_tools-IsOwned [] p.decision.tools tools;
          }
    ]

-- Every input that gates the decision of a validated program is one of its inputs, and enabled.
pub validate_program-IsEnabled :
    (json_valid : String → Bool) (p : TaskProgram)
    → validate_program json_valid p ≡ none
    → All (IsEnabled p.inputs) p.activation.input_ids
validate_program-IsEnabled json_valid p h = (validate-Validated json_valid p h).activation

IsOwned-contains : (ts : List String) → All IsOwned ts → contains ts "message_send" ≡ false
unfolding contains
IsOwned-contains [] h = refl
IsOwned-contains (t ∷ ts) h = ground (arith, IsOwned-contains ts h.1)

enabled-contains :
    (is : List TaskProgramInput)
    → All (λ i. IsOwned i.tool) is
    → contains (enabled_tools is) "message_send" ≡ false
unfolding contains enabled_tools
enabled-contains [] h = refl
enabled-contains (i ∷ is) h = ground (arith, enabled-contains is h.1)

abbrev sender : String
sender = "message_send"

sender_named : sender ≢ ""
sender_named e = ground (arith, eq_iff "message_send" "")

-- A validated program never requests the scheduler's own tool for messages to the user.
pub requested_tools-sender :
    (json_valid : String → Bool) (p : TaskProgram)
    → validate_program json_valid p ≡ none
    → contains (requested_tools p) "message_send" ≡ false
unfolding requested_tools
requested_tools-sender json_valid p h =
    let v = validate-Validated json_valid p h in
    let chosen : List String = if str_eq p.decision.mode "selected" then p.decision.tools else [] in
    let no_choice : contains chosen sender ≡ false =
      elim (Bool-cases (str_eq p.decision.mode "selected")) [
        | inl e ↦ rw e (IsOwned-contains p.decision.tools v.tools)
        | inr e ↦ rw e (unfold contains in refl)
      ] in
    dedupe_strings-contains (enabled_tools p.inputs ++ chosen) sender sender_named
    ∙ contains-append (enabled_tools p.inputs) chosen sender
    ∙ ground (arith, no_choice, enabled-contains p.inputs v.inputs)
