-- ===== src/Refusal.antt =====
-- The messages that `requireThat` of packages/native/src/codec.ts throws with in the reducer, the
-- fee schedule and the progressive mint: each constructor is one message of the source.
pub data Refusal : Type 0 where
  -- packages/native/src/codec.ts
  compact_too_wide non_canonical_compact truncated_input trailing_bytes vector_too_large : Refusal
  integer_out_of_range compact_out_of_range unsupported_batch wrong_byte_length : Refusal
  call_limit nested_batch batch_too_large unsupported_call unsupported_address : Refusal
  non_canonical_call not_text invalid_decimals invalid_policy mint_limit_exceeds_cap : Refusal
  amount_must_be_positive invalid_content_type empty_content payment_overflow : Refusal
  zero_fee_needs_zero_fee_to payload_too_large unknown_protocol unknown_fee_admin_action : Refusal
  reserved_operation unknown_operation non_canonical_operation : Refusal
  -- packages/native/src/fee-schedule.ts
  invalid_symbol symbol_blocked mint_fee_not_rate_derived invalid_fee_target : Refusal
  rate_out_of_bounds rate_not_canonical invalid_fee_schedule fee_state_missing : Refusal
  invalid_effective_height fee_operator_frozen not_the_fee_operator rate_step_too_large : Refusal
  grid_ids_exhausted invalid_fee_account_role not_a_fee_role no_pending_grid : Refusal
  not_the_fee_guardian_or_sentinel not_the_fee_guardian fee_state_invariant : Refusal
  -- packages/native/src/progressive-mint.ts
  invalid_supply not_1000_equal_lots invalid_minted_amount not_whole_lots : Refusal
  invalid_mint_tier mint_sold_out invalid_mint_amount not_one_lot invalid_lot : Refusal
  no_lot_left invalid_right_anchor ticket_signer_collision : Refusal
  not_settlement_shape not_threshold_two not_settlement_payment noncanonical_settlement : Refusal
  -- packages/native/src/protocol.ts
  invalid_price insufficient_tokens not_a_progressive_asset all_lots_minted : Refusal
  multisig_event_incomplete unknown_progressive_right unsigned_operation zero_sender : Refusal
  wrong_genesis wrong_sequence fee_schedule_not_active asset_already_exists symbol_taken : Refusal
  inscription_counter unknown_asset inscriptions_cannot_be_minted inscription_amount : Refusal
  progressive_mints_by_right issuer_only mint_cap_limit zero_recipient : Refusal
  offer_requires_proposal invalid_expiry invalid_counterparties no_sale_fee : Refusal
  not_bilateral_multisig ambiguous_proposal_event wrong_proposal_origin ticket_reused : Refusal
  requires_fee_batch not_exact_fee_batch no_fee_receipt fee_mismatch : Refusal
  requires_direct_remark missing_remark duplicate_right_use duplicate_multisig : Refusal
  unsupported_runtime noncontiguous_block invalid_block_hash invalid_finality : Refusal
  unordered_extrinsic invariant_broken : Refusal
  cannot_roll_back_final unknown_rollback not_a_live_ticket not_finalized expired_ticket : Refusal
  -- packages/native/src/commands.ts
  mainnet_fees_off fee_schedule_required zero_account governance_is_no_command : Refusal
  not_the_next_lot another_profile fee_account_cannot_mint invalid_qtc_transfer : Refusal
  invalid_counterparty wrong_buyer_or_ticket only_seller_closes use_sell : Refusal
  not_a_governance_operation : Refusal
