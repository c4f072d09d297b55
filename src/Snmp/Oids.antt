-- ===== src/Snmp/Oids.antt =====
-- The OIDs of backend/app/services/snmp_collector.py that the poll and the inventory read.
use network_monitoring.Prelude.{String}

abbrev pub oid_sys_descr : String
oid_sys_descr = "1.3.6.1.2.1.1.1.0"

abbrev pub oid_sys_uptime : String
oid_sys_uptime = "1.3.6.1.2.1.1.3.0"

abbrev pub oid_sys_name : String
oid_sys_name = "1.3.6.1.2.1.1.5.0"

abbrev pub oid_if_descr : String
oid_if_descr = "1.3.6.1.2.1.2.2.1.2"

abbrev pub oid_if_oper_status : String
oid_if_oper_status = "1.3.6.1.2.1.2.2.1.8"

abbrev pub oid_if_in_octets : String
oid_if_in_octets = "1.3.6.1.2.1.2.2.1.10"

abbrev pub oid_if_out_octets : String
oid_if_out_octets = "1.3.6.1.2.1.2.2.1.16"

abbrev pub oid_if_name : String
oid_if_name = "1.3.6.1.2.1.31.1.1.1.1"

abbrev pub oid_if_hc_in : String
oid_if_hc_in = "1.3.6.1.2.1.31.1.1.1.6"

abbrev pub oid_if_hc_out : String
oid_if_hc_out = "1.3.6.1.2.1.31.1.1.1.10"

abbrev pub oid_if_high_speed : String
oid_if_high_speed = "1.3.6.1.2.1.31.1.1.1.15"

abbrev pub oid_hr_cpu_load : String
oid_hr_cpu_load = "1.3.6.1.2.1.25.3.3.1.2"

abbrev pub oid_hr_storage_descr : String
oid_hr_storage_descr = "1.3.6.1.2.1.25.2.3.1.3"

abbrev pub oid_hr_storage_units : String
oid_hr_storage_units = "1.3.6.1.2.1.25.2.3.1.4"

abbrev pub oid_hr_storage_size : String
oid_hr_storage_size = "1.3.6.1.2.1.25.2.3.1.5"

abbrev pub oid_hr_storage_used : String
oid_hr_storage_used = "1.3.6.1.2.1.25.2.3.1.6"

abbrev pub oid_cisco_cpu_5min : String
oid_cisco_cpu_5min = "1.3.6.1.4.1.9.9.109.1.1.1.1.8"

abbrev pub oid_cisco_mem_used : String
oid_cisco_mem_used = "1.3.6.1.4.1.9.9.48.1.1.1.5"

abbrev pub oid_cisco_mem_free : String
oid_cisco_mem_free = "1.3.6.1.4.1.9.9.48.1.1.1.6"

abbrev pub oid_juniper_cpu : String
oid_juniper_cpu = "1.3.6.1.4.1.2636.3.1.13.1.8"

abbrev pub oid_juniper_mem : String
oid_juniper_mem = "1.3.6.1.4.1.2636.3.1.13.1.11"

abbrev pub oid_nokia_cpu : String
oid_nokia_cpu = "1.3.6.1.4.1.6527.3.1.2.1.1.1.0"

abbrev pub oid_nokia_mem_used : String
oid_nokia_mem_used = "1.3.6.1.4.1.6527.3.1.2.1.1.9.0"

abbrev pub oid_nokia_mem_avail : String
oid_nokia_mem_avail = "1.3.6.1.4.1.6527.3.1.2.1.1.10.0"

abbrev pub oid_sys_object_id : String
oid_sys_object_id = "1.3.6.1.2.1.1.2.0"

abbrev pub oid_sys_contact : String
oid_sys_contact = "1.3.6.1.2.1.1.4.0"

abbrev pub oid_sys_location : String
oid_sys_location = "1.3.6.1.2.1.1.6.0"

abbrev pub oid_ent_class : String
oid_ent_class = "1.3.6.1.2.1.47.1.1.1.1.5"

abbrev pub oid_ent_name : String
oid_ent_name = "1.3.6.1.2.1.47.1.1.1.1.7"

abbrev pub oid_ent_hw_rev : String
oid_ent_hw_rev = "1.3.6.1.2.1.47.1.1.1.1.8"

abbrev pub oid_ent_fw_rev : String
oid_ent_fw_rev = "1.3.6.1.2.1.47.1.1.1.1.9"

abbrev pub oid_ent_sw_rev : String
oid_ent_sw_rev = "1.3.6.1.2.1.47.1.1.1.1.10"

abbrev pub oid_ent_serial : String
oid_ent_serial = "1.3.6.1.2.1.47.1.1.1.1.11"

abbrev pub oid_ent_model : String
oid_ent_model = "1.3.6.1.2.1.47.1.1.1.1.13"

abbrev pub oid_hr_storage_type : String
oid_hr_storage_type = "1.3.6.1.2.1.25.2.3.1.2"

abbrev pub oid_hr_type_fixed_disk : String
oid_hr_type_fixed_disk = "1.3.6.1.2.1.25.2.1.4"

abbrev pub oid_hr_type_ram : String
oid_hr_type_ram = "1.3.6.1.2.1.25.2.1.2"

abbrev pub oid_if_type : String
oid_if_type = "1.3.6.1.2.1.2.2.1.3"

abbrev pub oid_if_mtu : String
oid_if_mtu = "1.3.6.1.2.1.2.2.1.4"

abbrev pub oid_if_phys : String
oid_if_phys = "1.3.6.1.2.1.2.2.1.6"

abbrev pub oid_if_admin_status : String
oid_if_admin_status = "1.3.6.1.2.1.2.2.1.7"

abbrev pub oid_if_in_discards : String
oid_if_in_discards = "1.3.6.1.2.1.2.2.1.13"

abbrev pub oid_if_in_errors : String
oid_if_in_errors = "1.3.6.1.2.1.2.2.1.14"

abbrev pub oid_if_out_discards : String
oid_if_out_discards = "1.3.6.1.2.1.2.2.1.19"

abbrev pub oid_if_out_errors : String
oid_if_out_errors = "1.3.6.1.2.1.2.2.1.20"

abbrev pub oid_if_alias : String
oid_if_alias = "1.3.6.1.2.1.31.1.1.1.18"

abbrev pub oid_sensor_type : String
oid_sensor_type = "1.3.6.1.2.1.99.1.1.1.1"

abbrev pub oid_sensor_precision : String
oid_sensor_precision = "1.3.6.1.2.1.99.1.1.1.3"

abbrev pub oid_sensor_value : String
oid_sensor_value = "1.3.6.1.2.1.99.1.1.1.4"

abbrev pub oid_sensor_status : String
oid_sensor_status = "1.3.6.1.2.1.99.1.1.1.5"

abbrev pub oid_sensor_units : String
oid_sensor_units = "1.3.6.1.2.1.99.1.1.1.6"

abbrev pub oid_cenv_temp_descr : String
oid_cenv_temp_descr = "1.3.6.1.4.1.9.9.13.1.3.1.2"

abbrev pub oid_cenv_temp_value : String
oid_cenv_temp_value = "1.3.6.1.4.1.9.9.13.1.3.1.3"

abbrev pub oid_cenv_temp_state : String
oid_cenv_temp_state = "1.3.6.1.4.1.9.9.13.1.3.1.6"

abbrev pub oid_cenv_fan_descr : String
oid_cenv_fan_descr = "1.3.6.1.4.1.9.9.13.1.4.1.2"

abbrev pub oid_cenv_fan_state : String
oid_cenv_fan_state = "1.3.6.1.4.1.9.9.13.1.4.1.3"

abbrev pub oid_cenv_supply_descr : String
oid_cenv_supply_descr = "1.3.6.1.4.1.9.9.13.1.5.1.2"

abbrev pub oid_cenv_supply_state : String
oid_cenv_supply_state = "1.3.6.1.4.1.9.9.13.1.5.1.3"

abbrev pub oid_dot1q_vlan_name : String
oid_dot1q_vlan_name = "1.3.6.1.2.1.17.7.1.4.3.1.1"

abbrev pub oid_cisco_vtp_vlan_name : String
oid_cisco_vtp_vlan_name = "1.3.6.1.4.1.9.9.46.1.3.1.1.4"

abbrev pub oid_dot1q_fdb_port : String
oid_dot1q_fdb_port = "1.3.6.1.2.1.17.7.1.2.2.1.2"

abbrev pub oid_dot1d_fdb_port : String
oid_dot1d_fdb_port = "1.3.6.1.2.1.17.4.3.1.2"

abbrev pub oid_dot1d_base_port_if : String
oid_dot1d_base_port_if = "1.3.6.1.2.1.17.1.4.1.2"

abbrev pub oid_arp_phys : String
oid_arp_phys = "1.3.6.1.2.1.4.22.1.2"

abbrev pub oid_ipcidr_route_ifindex : String
oid_ipcidr_route_ifindex = "1.3.6.1.2.1.4.24.4.1.5"

abbrev pub oid_ipcidr_route_proto : String
oid_ipcidr_route_proto = "1.3.6.1.2.1.4.24.4.1.7"

abbrev pub oid_iproute_ifindex : String
oid_iproute_ifindex = "1.3.6.1.2.1.4.21.1.2"

abbrev pub oid_iproute_nexthop : String
oid_iproute_nexthop = "1.3.6.1.2.1.4.21.1.7"

abbrev pub oid_iproute_mask : String
oid_iproute_mask = "1.3.6.1.2.1.4.21.1.11"

abbrev pub oid_ups_battery_status : String
oid_ups_battery_status = "1.3.6.1.2.1.33.1.2.1.0"

abbrev pub oid_ups_seconds_on_batt : String
oid_ups_seconds_on_batt = "1.3.6.1.2.1.33.1.2.2.0"

abbrev pub oid_ups_minutes_remain : String
oid_ups_minutes_remain = "1.3.6.1.2.1.33.1.2.3.0"

abbrev pub oid_ups_charge_pct : String
oid_ups_charge_pct = "1.3.6.1.2.1.33.1.2.4.0"

abbrev pub oid_ups_out_load : String
oid_ups_out_load = "1.3.6.1.2.1.33.1.4.4.1.5"

abbrev pub oid_ups_in_voltage : String
oid_ups_in_voltage = "1.3.6.1.2.1.33.1.3.3.1.3"

abbrev pub oid_ups_out_voltage : String
oid_ups_out_voltage = "1.3.6.1.2.1.33.1.4.4.1.2"

abbrev pub oid_cbqos_policymap_name : String
oid_cbqos_policymap_name = "1.3.6.1.4.1.9.9.166.1.6.1.1.1"

abbrev pub oid_cbqos_cm_name : String
oid_cbqos_cm_name = "1.3.6.1.4.1.9.9.166.1.7.1.1.1"

abbrev pub oid_ipsec_tun_peer : String
oid_ipsec_tun_peer = "1.3.6.1.4.1.9.9.171.1.3.2.1.4"

abbrev pub oid_ipsec_tun_status : String
oid_ipsec_tun_status = "1.3.6.1.4.1.9.9.171.1.3.2.1.14"

abbrev pub oid_cisco_ap_name : String
oid_cisco_ap_name = "1.3.6.1.4.1.9.9.513.1.1.1.1.5"
