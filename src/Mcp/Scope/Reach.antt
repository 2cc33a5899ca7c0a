-- ===== src/Mcp/Scope/Reach.antt =====
-- scope.rs: which tools are out of reach.
use sentinel_command.Prelude.{
  ◌≡◌, refl, ap, ◌∙◌, true, false, not, ◌&&◌, ◌||◌, List, [], ◌∷◌, ◌++◌, Option, keep, All, arith,
  Bool-cases, inl, inr,
}
use sentinel_command.Interfaces.{◌==◌}
use sentinel_command.Text.{Text, text_eq, text_beq_iff, codes}
use sentinel_command.Assoc.{member}
use sentinel_command.Sets.{member-keep}
use sentinel_command.Mcp.Scope.{
  mcp_read_tools, mcp_write_tools, collect, all_tools, read_tools, compute_agent_allowed_tools,
  mode_of, or_no_tools, compute_allowed_tools,
}

member-collect : (tool : Text) (tools : List Text) → member tool (collect tools) ≡ member tool tools
unfolding collect member
member-collect tool [] = refl
member-collect tool (x ∷ tools) = ground (
  arith,
  member-collect tool tools,
  text_beq_iff x tool,
  ap (λ (t : Text). member t (collect tools)),
)

member-join :
    (tool : Text) (xs ys : List Text) → member tool (xs ++ ys) ≡ (member tool xs || member tool ys)
unfolding member
member-join tool [] ys = refl
member-join tool (x ∷ xs) ys = ground (arith, member-join tool xs ys)

member-all_tools :
    (tool : Text)
    → member tool all_tools ≡ (member tool mcp_read_tools || member tool mcp_write_tools)
unfolding all_tools
member-all_tools tool =
    member-collect tool (mcp_read_tools ++ mcp_write_tools)
    ∙ member-join tool mcp_read_tools mcp_write_tools

-- Nothing of one list is in another.
disjoint :
    (tool : Text) (xs ys : List Text)
    → All (λ x. member x ys ≡ false) xs
    → member tool xs ≡ true
    → member tool ys ≡ false
unfolding member
disjoint tool [] ys a h = absurd (cc h)
disjoint tool (x ∷ xs) ys a h =
    ground
      (arith, disjoint tool xs ys a.1, a.0, h, text_beq_iff x tool, ap (λ (t : Text). member t ys))

write-not-read :
    (tool : Text) → member tool mcp_write_tools ≡ true → member tool mcp_read_tools ≡ false
unfolding member
write-not-read tool h =
    disjoint tool mcp_write_tools mcp_read_tools
      (refl, (refl, (refl, (refl, (refl, (refl, (refl, tt))))))) h

-- The tools that a key with some scope may call, and those that the agent may.
pub record Reach (scope_mode : Option Text) (scope_tools : Option (List Text)) (tool : Text)
    : Type 0 where
  pub served :
      (member tool (compute_allowed_tools scope_mode scope_tools) && not (member tool all_tools))
      ≡ false
  pub read_only :
      (mode_of scope_mode == codes "readonly"
        && member tool mcp_write_tools
        && member tool (compute_allowed_tools scope_mode scope_tools))
      ≡ false
  pub listed :
      (mode_of scope_mode == codes "custom"
        && member tool (compute_allowed_tools scope_mode scope_tools))
      ≡ (mode_of scope_mode == codes "custom"
          && member tool all_tools
          && member tool (or_no_tools scope_tools))
  pub agent :
      (all reads agent_writes : List Text)
      → member tool (compute_agent_allowed_tools all reads agent_writes)
        ≡ (member tool all && (member tool reads || member tool agent_writes))

member-agent :
    (tool : Text) (all reads agent_writes : List Text)
    → member tool (compute_agent_allowed_tools all reads agent_writes)
      ≡ (member tool all && (member tool reads || member tool agent_writes))
unfolding compute_agent_allowed_tools
member-agent tool all reads agent_writes =
    member-collect tool (keep (λ t. member t all) (reads ++ agent_writes))
    ∙ member-keep (λ t. member t all) tool (reads ++ agent_writes)
    ∙ ap (λ b. member tool all && b) (member-join tool reads agent_writes)

member-custom :
    (tool : Text) (tools : List Text)
    → member tool (collect (keep (λ name. member name all_tools) tools))
      ≡ (member tool all_tools && member tool tools)
member-custom tool tools =
    member-collect tool (keep (λ name. member name all_tools) tools)
    ∙ member-keep (λ name. member name all_tools) tool tools

member-read_tools : (tool : Text) → member tool read_tools ≡ member tool mcp_read_tools
unfolding read_tools
member-read_tools tool = member-collect tool mcp_read_tools

not_both : (mode : Text) → (mode == codes "readonly") ≡ true → (mode == codes "custom") ≡ false
not_both mode h =
    ap (λ (m : Text). m == codes "custom") ((text_beq_iff mode (codes "readonly")).0 h)

-- No scope lets a key call a tool that the server does not have. A read-only key calls no tool that
-- writes, and a custom key exactly the tools of its list that the server has. The agent calls only what
-- reads or is on its own list, whatever tools the server has or may come to have.
pub compute_allowed_tools-Reach :
    (scope_mode : Option Text) (scope_tools : Option (List Text)) (tool : Text)
    → Reach scope_mode scope_tools tool
unfolding compute_allowed_tools
compute_allowed_tools-Reach scope_mode scope_tools tool =
    elim (Bool-cases (mode_of scope_mode == codes "readonly")) [
      | inl reads ↦
          let other = not_both (mode_of scope_mode) reads in
          let e : compute_allowed_tools scope_mode scope_tools ≡ read_tools =
            rw (reads, compute_allowed_tools) refl in
          let same = ap (member tool) e ∙ member-read_tools tool in
          record {
            served = ground (arith, same, member-all_tools tool);
            read_only = ground (arith, same, write-not-read tool);
            listed = ground (arith, other);
            agent = member-agent tool;
          }
      | inr wider ↦ elim (Bool-cases (mode_of scope_mode == codes "custom")) [
        | inl custom ↦
            let e : compute_allowed_tools scope_mode scope_tools
                ≡ collect (keep (λ name. member name all_tools) (or_no_tools scope_tools)) =
              rw (wider, compute_allowed_tools) (rw (custom, compute_allowed_tools) refl) in
            let same = ap (member tool) e ∙ member-custom tool (or_no_tools scope_tools) in
            record {
              served = ground (arith, same);
              read_only = ground (arith, wider);
              listed = ground (arith, same, custom);
              agent = member-agent tool;
            }
        | inr full ↦
            let e : compute_allowed_tools scope_mode scope_tools ≡ all_tools =
              rw (wider, compute_allowed_tools) (rw (full, compute_allowed_tools) refl) in
            let same = ap (member tool) e in
            record {
              served = ground (arith, same);
              read_only = ground (arith, wider);
              listed = ground (arith, full);
              agent = member-agent tool;
            }
      ]
    ]
