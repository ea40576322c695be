-- ===== src/Tests/Form.antt =====
-- The rule form, filled in.
use networkat_cloud_web_app.Prelude.{◌≡◌, refl, ◌||◌, true, false, none, some, []}
use networkat_cloud_web_app.Prelude.Text.{codes, trim, split_on, text_eq, join, to_lower}
use networkat_cloud_web_app.Prelude.Decimal.{value_from, show}
use networkat_cloud_web_app.Prelude.ParseInt.{parse_int_of, plus}
use networkat_cloud_web_app.NetworkMath.Ipv4.{
  parse_and_validate_ipv4, parse_trimmed, split_mask, parse_octets, parse_octet, parse_prefix,
  parse_mask, ipv4_result, network_ip_of, with_prefix, dotted, net32_of, ip32_of, netmask32,
}
use networkat_cloud_web_app.Alias.{parts_of, resolve_alias_names_to_ids, part_to_id}
use networkat_cloud_web_app.Firewall.Addresses.{
  validate_address_input, check_parts, check_addresses, validate_comment_input,
}
use networkat_cloud_web_app.Firewall.Ports.{
  validate_port_input, has_double_comma, parse_parts, parse_part, parse_single, parse_range,
  has_overlap,
}
use networkat_cloud_web_app.Firewall.RuleForm.{
  RuleForm, Request, custom, post, sent, has_ports, comment_errors, address_errors, port_errors,
  ports_errors, order_errors, field_errors, normalized_or, address_sent, port_sent, payload_of,
  order_val, final_order, request_of, submit_add_rule,
}
use networkat_cloud_web_app.Firewall.RuleForm.Sent.{SendsRequest, submit_add_rule-SendsRequest}

abbrev web_form : RuleForm
web_form = record {
  rule_name = codes "web ";
  action = codes "accept";
  protocol = codes "tcp";
  iface = codes "lan";
  src_ip = codes "10.0.0.9/8";
  dst_ip = [];
  src_port = [];
  dst_port = codes "80,443";
  order_choice = custom;
  custom_order = codes "2";
}

abbrev web_request : Request
web_request =
    post
      (record {
        rule_name = codes "web";
        action = codes "accept";
        protocol = codes "tcp";
        iface = codes "lan";
        src_ip = some (codes "10.0.0.0/8");
        dst_ip = none;
        src_port = none;
        dst_port = some (codes "80,443");
      })
      (some (plus 2))

web_sent : submit_add_rule true false [] 3 none web_form ≡ sent web_request
unfolding submit_add_rule request_of field_errors comment_errors address_errors port_errors
    ports_errors order_errors normalized_or address_sent port_sent payload_of order_val final_order
    has_ports validate_port_input has_double_comma parse_parts parse_part parse_single parse_range
    has_overlap validate_address_input check_parts check_addresses validate_comment_input parts_of
    resolve_alias_names_to_ids part_to_id parse_and_validate_ipv4 parse_trimmed split_mask
    parse_octets parse_octet parse_prefix parse_mask ipv4_result network_ip_of with_prefix dotted
    net32_of ip32_of netmask32 trim split_on text_eq join to_lower value_from show parse_int_of
web_sent = refl

submit_add_rule-SendsRequest_example :
    ((true || false) ≡ true) × SendsRequest [] 3 web_form none web_request
submit_add_rule-SendsRequest_example =
    submit_add_rule-SendsRequest true false [] 3 none web_form web_request web_sent
