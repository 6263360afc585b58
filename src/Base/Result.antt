-- ===== src/Base/Result.antt =====
-- The result of a C function that returns a value, or a negative SKY_RET code.
-- The codes are those of src/skylink/skylink.h.

-- The codes below zero, `SKY_RET_X` as `x`; `unnamed_failure` is a bare -1, and
-- `undefined_behaviour` is none of C's: it stands where C writes outside of its memory.
pub data Code : Type 0 where
  invalid_encoded_length invalid_plain_length invalid_version invalid_vc : Code
  invalid_ext_length redundant_extensions filtered_by_identity : Code
  crc_invalid_length crc_invalid_checksum : Code
  golay_failed golay_misconfigured rs_failed rs_invalid_length : Code
  auth_failed auth_missing excessive_hmac_jump frame_too_long_for_hmac : Code
  frame_too_short_for_hmac : Code
  no_space_for_payload unknown_extension ext_decode_fail invalid_ext_type : Code
  ring_empty ring_invalid_sequence ring_buffer_full ring_ring_full : Code
  ring_packet_already_in ring_cannot_recall ring_resend_full ring_invalid_acknowledge : Code
  ring_sequences_detached ring_sequences_out_of_sync too_long_payload malloc_failed : Code
  ebuffer_invalid_index ebuffer_chain_corrupted ebuffer_no_space ebuffer_too_long_payload : Code
  unnamed_failure undefined_behaviour : Code

pub data Result (A : Type 0) : Type 0 where
  ok : A → Result A
  err : Code → Result A
