-- ===== src/Lib.antt =====
-- A model of kc-docker (boxr), a container engine in Rust, with the theorems that make its parts
-- correct. Paths are those of the repository.
--
-- The parts and their files:
--   * src/network/usernet/packets.rs, the packet formats: UserNet/Packets.antt has the headers and
--     constants, UserNet/Packets/ a module per format with `parse` and `write_to`, and the Internet
--     checksum. A buffer is the list of its bytes. `parse_with` is a parser whose caller says what
--     becomes of `None`, of an index or a slice out of range, and of a result; `none` of
--     Ipv4.write_to is the panic of its slice.
--   * src/network/usernet/engine.rs, the user-mode network stack: UserNet/Engine.antt has
--     `handle_incoming_frame` with the handlers for ARP, ICMP, UDP and TCP below it and
--     `forward_dns_query`. A handler gives an `Outcome`: nothing, a frame, or a panic, which is
--     that of a parser or a writer, an index (`index`) or a store (`in_range`) out of range. What the
--     host's sockets answer is the record `Host`, an argument of the handlers, on which the
--     theorems put no condition but that what was read are bytes. UserNet/Engine/ has a module per
--     protocol for what its replies are.
--   * src/network/mod.rs, networks: Network/Ports.antt has `PortMapping::parse_all`,
--     Network/Addresses.antt the text form of addresses, Network/Ipam.antt
--     `allocate_ip_in_subnet`, Network/Store.antt the records and the operations on networks,
--     Network/Endpoints.antt `connect_container`, `disconnect_container` and
--     `generate_hosts_file`. The state is what networks.json holds. Each operation loads it, works
--     on it and saves it under the index lock, so it is a function from stored data to a result
--     with the new data; Network/Invariant.antt has the steps between such states. The random id
--     and the time are arguments.
--   * src/compose/mod.rs, compose projects: Compose.antt has `dependency_order` and
--     `visit_service`, with the three collections that the recursion passes on as one record;
--     Compose/Services.antt has the environment, the volumes and the name of a service's container
--     and the test by which `down` finds the project's containers.
--   * src/builder/parser.rs, the Dockerfile parser: Builder/Instructions.antt has the lines and the
--     keywords, Builder/Pairs.antt the `key=value` syntax. An index into the characters is the rest
--     of the text. serde_json's reader of string arrays is the argument `from_json`.
--   * src/builder/dockerignore.rs: Builder/Ignore.antt has the rules of .dockerignore,
--     Builder/Wildcard.antt the matcher `matches_wildcard`.
--   * src/oci/reference.rs, image references: Oci/Reference.antt.
--   * src/storage/container_store.rs, the containers: Storage.antt has the record,
--     Storage/Containers.antt the operations of `ContainerStore` on what containers.json holds, and
--     Storage/Restart.antt the restart policies of src/health/mod.rs.
--   * src/storage/image_store.rs, the images: Storage/Images.antt has the records and which of them a
--     query means, by the references of Oci/Reference.antt, and Storage/Images/Store.antt the
--     operations of `ImageStore` on what images.json holds and on the directories that are there.
--   * src/guardrails/mod.rs: Guardrails/Collisions.antt has the port guard, over the containers of
--     Storage.antt, Guardrails/Rotation.antt the log rotation, over the files of one log,
--     Guardrails/Sizes.antt `parse_size`, and Guardrails/Reaper.antt `reap_stale_containers`. What
--     the pid files, the exit codes and `kill` answer is the record `Processes`.
--   * src/volume/mod.rs, volumes: Volume.antt has the records, Volume/Store.antt the operations,
--     Volume/Usage.antt the search for containers that use a volume, Volume/Filters.antt and
--     Volume/Prune.antt the filters and both prunes, Volume/Mounts.antt `resolve_mount`. The state
--     is what volumes.json holds and the names of the directories below the volumes' directory. The
--     mount sources of a bundle's config.json, the home directory and canonical paths are arguments.
--     Volume/Spec.antt is what the store promises: a map from names to records.
--   * src/secret/mod.rs, secrets: Secret.antt, over the index and the data files by directory.
--   * src/lib.rs, the commands on containers: Lifecycle.antt has stop, start, pause, unpause, remove
--     and prune, Lifecycle/Polling.antt `wait_container`, whose loop reads a sequence of what each
--     round sees. They work on the containers of Storage.antt, call the reaper where the code does,
--     and `rm -v` removes volumes of Volume.antt.
--   * src/pod/mod.rs, pods: Pod.antt has the records, Pod/Store.antt the operations on the list,
--     Pod/Removal.antt removal and prune, which remove containers by the command of Lifecycle.antt,
--     Pod/Sharing.antt what a pod passes on to the arguments of a container.
--   * src/health/mod.rs, health probes: Health.antt; the probe's exit code is an argument.
--   * src/cgroups/mod.rs: Cgroups.antt has `parse_memory`.
--   * src/lib.rs and src/runtime/kill.rs, checks of command-line flags: Cli.antt.
-- The engine's `new` takes port mappings of Network/Ports, the endpoints hold addresses that
-- Network/Ipam allocates, the port guard and the flag checks compare the mappings of
-- Network/Ports, and the reaper is a step of the commands of Lifecycle.
-- Shared.antt and Shared/ have what the parts share: Boolean tests and lists over the native
-- numbers, machine words, texts as lists of code points, results, maps as association lists.
--
-- Numbers are natural numbers; u16 and u32 arithmetic has its wrap-around written out. A HashMap is
-- an association list, whose order stands for the unspecified order of iteration. The upper and
-- lower case of letters and the alphanumeric test are those of ASCII; the errors' texts are left out.
-- Products that a release build lets wrap, as in `parse_memory`, wrap.
--
-- Fuel: `dependency_order` recurses on one more than the number of services, since the services
-- being visited differ; `fold_carries` has a round for each carry that a 32-bit sum can have;
-- `read_pairs` has a round for each character, with `none` for a loop that still runs, and `parse_line` one more than the line's length,
-- since each round shortens the text; `read_flags` drops a word in each round; `match_loop` has
-- `rounds`, since the match behind a star begins once at each place of the text at most.
--
-- Not modelled: the TAP device and the threads of the engine, the probes of published ports, the
-- lock and the JSON of the stores, failures of the file system below the stores, the branches for
-- Windows and macOS, and the modules whose work is system calls, HTTP or printing (runtime, daemon,
-- cli, overlay mounts, oci/distribution and others).
pub mod Shared
pub mod UserNet
pub mod Network
pub mod Storage
pub mod Compose
pub mod Builder
pub mod Guardrails
pub mod Oci
pub mod Volume
pub mod Cgroups
pub mod Health
pub mod Secret
pub mod Lifecycle
pub mod Pod
pub mod Cli
