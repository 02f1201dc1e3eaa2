-- ===== src/Lib.antt =====
-- A verification library for the Ansible modules and filter plugins of this repository.
--
-- The repository provisions FreeIPA servers in the cloud. Playbooks call modules that bring an
-- object (a DNS zone, a user, a Docker network, a disk, a key) to a declared state, and format names
-- and certificates with Jinja2 filters. This library models the modules and filters that decide
-- something; a theorem is about one of these parts or about a whole run.
--
-- Ipa: lib/python/ipa.py. A run logs in, posts a find request, computes what to change, queues
-- requests and posts them.
--   Values    attribute values, Python's `==`, `set` and `int`
--   Client    the attributes of a class (name, methods, kw_args, param_keys, base_keys), a task
--   Clean     clean, munge_pop_request_keys, munge_state_exact_add_defaults
--   Diff      get_slice, op, compute_changes
--   Session   the object's state (`Run`), login, _post_json, _fail
--   Hooks     the methods that subclasses override, as a record, with the base class's own
--   Texts     "%s=%s" % (k, v) and the sort of such texts
--   Ensure    find, add_or_mod, rem, queue_requests, process_queue, ensure, main
--   Enablable EnablableIPAClient: the states `enabled` and `disabled`
--   Classes   a module for each of lib/modules/ipa_dnszone.py (Zone), ipa_dnsrecord.py (Record),
--             ipa_ca.py, ipa_group.py, ipa_caacl.py, ipa_service.py, ipa_user.py and ipa_cert.py;
--             Words has the string operations they use, Queueing what their loops share;
--             Quiet shows that their change functions post nothing; Modules has the `main` of each
--             file, and theorems on the runs of all of them
-- Docker: lib/modules/docker_network.py.
--   Config    module parameters, networks, has_different_config
--   Manager   DockerNetworkManager: create, remove, connect, disconnect, present, absent
-- Parted: lib/modules/parted.py.
--   Failures  what ends the module, and the reading of an item and of an integer
--   Units     parse_unit, check_size_format, format_disk_size
--   Info      parse_partition_info
--   Machine   parted_version, read_record, get_device_info, check_parted_label, parted
--   Run       part_exists and main: the scripts of the states `present`, `absent` and `info`
-- Ssl: lib/modules/openssl_privatekey.py, lib/modules/openssl_csr.py and lib/python/crypto.py.
--   Files       the file system, and what both modules do with it
--   Fingerprint crypto.get_fingerprint
--   PrivateKey  PrivateKey: generate, remove, dump; main
--   Csr         CertificateSigningRequest: generate, remove, dump; main
-- Droplets: lib/action_plugins/do_droplet_info.py, with the list of the cloud's API as a parameter.
-- Filters: lib/filter_plugins.
--   Escape    DO_filters.py: systemd_escape
--   Domain    DO_filters.py: domain_to_dn; domain_ip_filters.py: shortname, last_octet
--   Format    DO_filters.py: formatmapstr, formatmaplist, with str.format as a parameter
--   Hosts     freeipa_filters.py: freeipa_dns_server_ips; DO_filters.py: ip_addr_list
--   Cert      ipa_cert_to_pem.py: ipa_cert_to_pem, cn_from_dn
-- Prelude, Result, Exec and Dict carry what these share: Boolean tests, lists measured by native
-- numbers, results, steps that change a state and may fail, and dicts as association lists. Tests
-- applies the theorems to concrete tasks, servers and daemons.
--
-- State and errors. A method is a function from the object's state to a result and a state, so what
-- was changed before an exception stays changed. An exception, and a call of fail_json, is a value
-- of `Failure`. What the FreeIPA server, `fetch_url` and the Docker daemon answer is a parameter: a
-- function of the requests, or calls, made so far and of the one at hand. So is what a command of
-- parted prints. pyOpenSSL, hashlib, the permissions of files and Ansible's
-- set_fs_attributes_if_different are parameters too; the files are the state of Ssl.
--
-- Bounds. The rounds of ipa_cert_to_pem run on fuel, the length of the data: each takes 64 of its
-- characters. The digits of a number, decimal or hexadecimal, are written with fuel one more than
-- the number, which has no more digits than that; its decimal digits are counted with fuel the
-- number itself. A quotient of doubles is widened by at most 128
-- doublings, which is enough for a multiplier below 2 ^ 64, and a size of d digits is narrowed by at
-- most 4 * d. All other loops are structural. A Python float that is read is its decimal; the
-- division and the rounding of format_disk_size are those of doubles, its logarithm is exact.
--
-- Orders. Python 2 leaves the order of a dict and of a set open; here it is the order in which the
-- entries were inserted.
--
-- Not modelled: the decoding of a reply's bytes and cookies, argument parsing by AnsibleModule
-- (aliases, choices, required parameters), the umask but as a parameter, and writes that fail after
-- the file was opened. Playbooks, images and templates are configuration and shell glue, with no
-- logic of their own in Python.
pub mod Prelude
pub mod Result
pub mod Exec
pub mod Dict
pub mod Ipa
pub mod Docker
pub mod Ssl
pub mod Parted
pub mod Droplets
pub mod Filters
pub mod Tests
