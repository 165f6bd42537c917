-- ===== src/Shadow/Document/Overflow.antt =====
-- shadow_json_set_content and put_json_node (uiot/shadow/src) behind more than half of the buffer.
