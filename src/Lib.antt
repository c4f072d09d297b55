-- ===== src/Lib.antt =====
-- A network monitor: one collector probes the devices, receives their syslog messages and SNMP
-- traps and sends the alerts; any number of API gateways serve the devices from a snapshot in Redis
-- and push status changes to the browsers. The database and Redis are all that the two share.
--
-- The state is `World` (World.antt): the tables of backend/app/models and the keys of Redis. A
-- handler or a loop body is a function that takes what it reads from outside (the user, the clocks,
-- the answers of the network, the outcome of a commit) and the state, and returns what it answers
-- and the next state. Each stands for the whole of its Python function, every early return
-- included; text that only goes to a log or into the body of a mail is left out.
--
--   Prelude, Dict, Table      lists, tests, dictionaries and tables that the parts share
--   Settings                  backend/app/core/config.py
--   Device, DeviceFields      backend/app/models/device.py, backend/app/schemas/device.py
--   World                     the other rows of backend/app/models, backend/app/services/audit.py
--   Text, Rounding            f-strings, slices, strip and split; `round` of a quotient
--   Crypto                    backend/app/core/crypto.py
--   StateCache                backend/app/services/state_cache.py and cache_warm.py
--   Ping                      backend/app/services/ping_scheduler.py: `_check_one` in its three
--                             phases; Ping.Probe the probe, Ping.Schedule the cadence
--   Alerts                    backend/app/services/alerts.py: `_alert_tick`; Alerts.Loss `_loss_tick`
--   Notify                    backend/app/services/notify.py
--   LoginGuard                backend/app/services/login_guard.py, backend/app/api/routes/auth.py
--   Ingest                    the buffer, flush and rate limit that syslog_listener.py and
--                             snmp_trap_listener.py of backend/app/services have in common
--   Readers                   the pieces of the patterns of syslog_listener.py
--   Syslog, Traps             the parsers, rows and rounds of those two receivers
--   Parents, Devices          backend/app/api/routes/devices.py: `_validate_parent` and the routes
--   Admin                     backend/app/api/routes/admin.py, backend/app/api/deps.py,
--                             backend/app/core/permissions.py
--   Gateway                   backend/app/services/ws_manager.py
--   Shell                     backend/app/api/routes/ws.py: the gates of the two WebSockets and the
--                             bridge of the device shell
--   Discovery                 backend/app/services/discovery.py; Discovery.Routes
--                             backend/app/api/routes/discovery.py
--   Snmp                      backend/app/services/snmp_collector.py: Snmp and Snmp.Session the
--                             session and its walks, Usage, Rates, Uptime and Facts one poll, Collect
--                             `collect_device` and `peek_device`, Loop a tick of its
--                             loop, Decode, System, Hardware, Tables and Inventory
--                             `inventory_device`
--   Ssh                       backend/app/services/ssh_collector.py
--   Links, Sla                backend/app/api/routes/device_links.py, backend/app/api/routes/sla.py
--                             and the bucketed history of backend/app/api/routes/devices.py
--   Hosts                     the host of a device in backend/app/schemas/device.py
--   Pages                     the listings of syslog.py, snmp_traps.py, events.py and audit.py of
--                             backend/app/api/routes
--   Monitor                   backend/app/api/routes/monitor.py
--   Watchdog                  tools/watchdog.py
--   Junos                     lab/junos-emu/jcli.py
--   Tests                     runs at concrete inputs
--
-- How they interact: Ping, Alerts and Devices write the same rows and refresh the same snapshot
-- through StateCache, and what they keep of it is `IsCoherent` (the snapshot shows the table) or
-- `IsLive` (it shows every status and service result) of StateCache.Coherence. Ping publishes the
-- changes that Gateway buffers. Devices asks Parents before it writes a parent, and Alerts follows
-- one step of the same relation. Alerts and the receivers send through Notify. The collectors of Snmp
-- and Ssh write the same rows; Discovery proposes what Devices has not, and an approval adds a device
-- as a creation does (Devices.Requests). Shell asks the gate of Admin before it reaches a device.
--
-- Numbers: times are microseconds; a percentage threshold is in thousandths of a percent; UUIDs are
-- numbers. Python's integers do not wrap; what wraps are the octet counters of an SNMP agent, whose
-- differences are taken modulo 2 ^ 32 or 2 ^ 64 (Snmp.Rates). `round` is applied to the exact quotient
-- where the program rounds a float. SNMP integers are those that are not negative.
--
-- Fuel: the loop of `_validate_parent` has one round more than there are devices, and the loop over
-- the buffer of a receiver has the length of the buffer. A count of the bits of n has the fuel n.
--
-- Arguments that stand for code outside the repository: icmplib and the ping command, DNS, pysnmp and
-- asyncssh, Python's ipaddress, JSON, repr and printed numbers, the hash of a text, Fernet and bcrypt,
-- the token's decoder, the deliveries of a channel, and whether a commit succeeds. A database answers
-- a query with the rows that its table holds; the buckets of a history are what it answers.
--
-- Assumed: Redis answers the writes that follow a commit, and the commits of the alert engine and of the
-- collectors succeed (`list_devices` and `warm_cache_if_cold` have the cases in which Redis does not
-- answer). A write sets updated_at even if it changes no column, but for `update_device`. The database
-- sorts by an order of texts that is an argument, and rows with the same time as it likes.
--
-- Not modelled: the endless loops around the bodies and their sleeps, two tasks interleaved inside one
-- handler (`check_one` and the collectors let any other writes happen between their sessions), the two
-- directions of a shell interleaved, the deliveries of the watchdog, what the emulated router prints,
-- the process entry points, the migrations, the frontend and the operations scripts.
pub mod Prelude
pub mod Dict
pub mod Table
pub mod Rounding
pub mod Settings
pub mod Device
pub mod Watchdog
pub mod World
pub mod Shell
pub mod Sla
pub mod Snmp
pub mod Ssh
pub mod StateCache
pub mod Text
pub mod Ping
pub mod Junos
pub mod Links
pub mod Pages
pub mod Hosts
pub mod Monitor
pub mod LoginGuard
pub mod Notify
pub mod Alerts
pub mod Ingest
pub mod Parents
pub mod Crypto
pub mod DeviceFields
pub mod Devices
pub mod Admin
pub mod Discovery
pub mod Gateway
pub mod Readers
pub mod Syslog
pub mod Traps
pub mod Tests
